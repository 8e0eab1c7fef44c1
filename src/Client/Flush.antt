-- ===== src/Client/Flush.antt =====
-- The messages of the receive queue of `WebSocket`, and `flushPendingMessages` of
-- src/impl/channel.cpp.
use websocket_client.Common.{
  ◌≡◌, refl, ap, sym, ◌∙◌, ◌&&◌, List, [], ◌∷◌, ◌++◌, append_assoc, append-nil, if◌then◌else◌,
}
use websocket_client.Message.{Message, to_variant}
use websocket_client.Client.{Client, Event, delivered, emit, flush_from, flush_pending_messages}

abbrev pub deliveries : List Message → List Event
deliveries [] = []
deliveries (m ∷ ms) = delivered (to_variant m) ∷ deliveries ms

flush_from-all :
    (queue : List Message) (w : Client)
    → w.recv_queue ≡ queue
    → flush_from queue w ≡ record w { recv_queue = []; events = w.events ++ deliveries queue }
unfolding flush_from
flush_from-all [] w e = λ i. record w { recv_queue = e i; events = sym (append-nil w.events) i }
flush_from-all (m ∷ queue) w e =
    flush_from-all queue (emit (delivered (to_variant m)) (record w { recv_queue = queue })) refl
    ∙ λ i. record w {
      recv_queue = [];
      events = append_assoc w.events (delivered (to_variant m) ∷ []) (deliveries queue) i;
    }

-- When the channel was opened and has a message callback, flushing hands every message of the queue to the callback, each once and in the order of their arrival, and leaves the queue empty; otherwise it does nothing.
pub flush_pending_messages-all :
    (w : Client)
    → flush_pending_messages w ≡ (
        if w.open_triggered && w.has_message_callback
        then record w { recv_queue = []; events = w.events ++ deliveries w.recv_queue }
        else w)
unfolding flush_pending_messages
flush_pending_messages-all w =
    ap (λ t. if w.open_triggered && w.has_message_callback then t else w)
      (flush_from-all w.recv_queue w refl)
