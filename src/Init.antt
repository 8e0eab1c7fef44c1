-- ===== src/Init.antt =====
-- The class `Init` of src/impl/init.cpp: the tokens, which keep the services up, and the thread that
-- cleans up behind the last one. Each method is run under the lock; the threads that clean up may
-- run at any time.
pub mod Reach
use websocket_client.Common.{
  ℕ, zero, suc, ◌+◌, ◌-◌, Bool, true, false, not, ◌&&◌, ◌||◌, Option, none, some, List, [], ◌∷◌,
  ◌++◌, if◌then◌else◌, ◌==◌,
}

-- A token is the number of its payload. `tokens` has those that users hold, `global` and `weak` are
-- `mGlobal` and `mWeak`; `threads` counts the threads of `~TokenPayload` that did not run; `starts`
-- and `stops` count the starts and the ends of the services; `failed` is whether the last start threw. The settings of SCTP are a number; they
-- are stored and not read.
pub record Init : Type 0 where
  pub global : Option ℕ
  pub weak : Option ℕ
  pub tokens : List ℕ
  pub payloads : ℕ
  pub initialized : Bool
  pub threads : ℕ
  pub starts : ℕ
  pub stops : ℕ
  pub failed : Bool
  pub sctp_settings : ℕ

abbrev pub new_init : Init
new_init = record {
  global = none;
  weak = none;
  tokens = [];
  payloads = 0;
  initialized = false;
  threads = 0;
  starts = 0;
  stops = 0;
  failed = false;
  sctp_settings = 0;
}

abbrev pub member : ℕ → List ℕ → Bool
member k [] = false
member k (j ∷ ids) = (j == k) || member k ids

abbrev pub is_some : ℕ → Option ℕ → Bool
is_some k none = false
is_some k (some j) = j == k

-- Whether a shared pointer to the payload is left.
abbrev pub alive : ℕ → Init → Bool
alive k w = is_some k w.global || member k w.tokens

-- `doInit`, and whether it returns: a start of the services throws if `fails`, after the flag was set.
unfoldable pub do_init : (fails : Bool) → Init → Bool × Init
do_init fails w =
    if w.initialized
    then (true, w)
    else (not fails, record w { initialized = true; starts = w.starts + 1; failed = fails })

-- `std::make_shared<TokenPayload>`, which is stored in both members, unless it throws.
abbrev pub stored : Bool → Init → Init
stored false w = w
stored true w = record w {
  global = some w.payloads;
  weak = some w.payloads;
  payloads = w.payloads + 1;
}

unfoldable pub new_payload : (fails : Bool) → Init → Bool × Init
new_payload fails w = let (returned, w1) = do_init fails w in (returned, stored returned w1)

-- `mWeak.lock()`
abbrev pub lock : Init → Option ℕ
lock w = elim w.weak [ none ↦ none | some k ↦ if alive k w then some k else none ]

-- `token`: the user holds one more, unless it throws.
abbrev pub held : Bool × Init → ℕ → Init
held (false, w) k = w
held (true, w) k = record w { tokens = k ∷ w.tokens }

unfoldable pub token : (fails : Bool) → Init → Init
token fails w = elim (lock w) [
  | some k ↦ record w { tokens = k ∷ w.tokens }
  | none ↦ held (new_payload fails w) w.payloads
]

unfoldable pub preload : (fails : Bool) → Init → Init
preload fails w = elim w.global [ none ↦ (new_payload fails w).1 | some k ↦ w ]

-- The destructor of the payload, where the last pointer to it is gone: a thread is made.
unfoldable pub after_release : ℕ → Init → Init
after_release k w = if alive k w then w else record w { threads = w.threads + 1 }

unfoldable pub cleanup : Init → Init
cleanup w = elim w.global [ none ↦ w | some k ↦ after_release k (record w { global = none }) ]

abbrev pub remove_one : ℕ → List ℕ → List ℕ
remove_one k [] = []
remove_one k (j ∷ ids) = let rest = remove_one k ids in if j == k then ids else j ∷ rest

-- A user lets a token go.
unfoldable pub release : ℕ → Init → Init
release k w =
    if member k w.tokens then after_release k (record w { tokens = remove_one k w.tokens }) else w

unfoldable pub do_cleanup : Init → Init
do_cleanup w = elim w.global [
  | some k ↦ w
  | none ↦
      if w.initialized
      then record w { initialized = false; stops = w.stops + 1; failed = false }
      else w
]

-- `setSctpSettings`
abbrev pub set_sctp_settings : ℕ → Init → Init
set_sctp_settings settings w = record w { sctp_settings = settings }
