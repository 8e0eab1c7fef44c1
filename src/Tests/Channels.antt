-- ===== src/Tests/Channels.antt =====
-- The theorems on channels at concrete inputs.
use websocket_client.Common.{◌≡◌, refl, false, none, some, List, [], ◌∷◌, ◌++◌}
use websocket_client.Message.{Variant}
use websocket_client.Channel.{
  Functions, Channel, new_channel, Call, calls_on_message, calls_open, calls_arrive, calls_receive,
  calls_closed, calls_on_closed, perform_all, reset_callbacks,
}
use websocket_client.Channel.Flush.{taken_all, IsSettled}
use websocket_client.Channel.Messages.{perform_all-messages}
use websocket_client.Channel.Silent.{IsMute, perform_all-IsMute}

abbrev quiet_functions : Functions
quiet_functions = record {
  plain_fails = λ f x. false;
  error_fails = λ f x. false;
  message_fails = λ f x. false;
}

abbrev hello : Variant
hello = Variant.string (1 ∷ [])

abbrev calls : List Call
calls =
    calls_arrive hello
    ∷ calls_receive
    ∷ calls_open
    ∷ calls_arrive (Variant.binary (2 ∷ []))
    ∷ calls_on_message (some 7)
    ∷ []

perform_all-messages_example :
    (hello ∷ Variant.binary (2 ∷ []) ∷ []
      ≡ taken_all quiet_functions calls new_channel
        ++ (perform_all quiet_functions calls new_channel).recv_queue)
    × IsSettled (perform_all quiet_functions calls new_channel)
perform_all-messages_example = perform_all-messages quiet_functions calls new_channel (λ h. refl)

abbrev watched : Channel
watched = perform_all quiet_functions (calls_on_closed (some 3) ∷ []) new_channel

perform_all-IsMute_example : IsMute watched (
    perform_all quiet_functions
      (calls_closed ∷ calls_on_message none ∷ [])
      (reset_callbacks watched))
perform_all-IsMute_example =
    perform_all-IsMute quiet_functions (calls_closed ∷ calls_on_message none ∷ []) watched
      (tt, (refl, tt))
