-- ===== src/Signal/Bridge/Steps.antt =====
-- The senders, the daemon and one connection as steps that interleave. The daemon answers the
-- commands of a connection in their order (signal-bridge/src/main.rs), the one of send `n` by
-- `answer n`. The lock is `holder`, the send that has it.
use delta_gateway_chat_woot.Base.{
  ℕ, suc, Bool, true, false, List, [], ◌∷◌, ◌++◌, Option, none, some, ◌≡◌,
}
use delta_gateway_chat_woot.Errors.{Exc, ok, err}
use delta_gateway_chat_woot.Values.{Value, equals, get_value}
use delta_gateway_chat_woot.Signal.Bridge.{
  Bridge, new_bridge, outcome, cancel, handle_event, connect, connection_lost, begin_send,
  await_result, discard_pending,
}

pub record System : Type 0 where
  pub bridge : Bridge
  -- the next send's number
  pub next_id : ℕ
  pub holder : Option ℕ
  -- the commands that the daemon has not answered, oldest first
  pub unanswered : List ℕ
  -- whether a send was given up while its command was unanswered
  pub given_up : Bool
  -- what the sends have returned
  pub returned : List (ℕ × Value)

abbrev pub new_system : System
new_system = record {
  bridge = new_bridge;
  next_id = 0;
  holder = none;
  unanswered = [];
  given_up = false;
  returned = [];
}

-- event.get("type") == "send_result"
abbrev pub is_result : Value → Bool
is_result event = elim (get_value "type" event) [ ok t ↦ equals t "send_result" | err e ↦ false ]

pub data Step (answer : ℕ → Value) (s : System) : System → Type 0 where
  opened :
      s.bridge.connected ≡ false
      → Step answer s (record s { bridge = connect s.bridge; unanswered = [] })
  -- the lock is free: the command is written
  sent :
      s.holder ≡ none
      → s.bridge.connected ≡ true
      → Step answer s (record s {
        bridge = (begin_send s.next_id s.bridge).1;
        next_id = suc s.next_id;
        holder = some s.next_id;
        unanswered = s.unanswered ++ s.next_id ∷ [];
      })
  -- the write fails, and the daemon has not got the command; nothing happens in between
  unsent :
      s.holder ≡ none
      → s.bridge.connected ≡ true
      → Step answer s (record s {
        bridge = discard_pending s.next_id (begin_send s.next_id s.bridge).1;
        next_id = suc s.next_id;
      })
  answered :
      (n : ℕ) (rest : List ℕ)
      → s.bridge.connected ≡ true
      → s.unanswered ≡ n ∷ rest
      → Step answer s
          (record s { bridge = (handle_event (answer n) s.bridge).1; unanswered = rest })
  -- any other line
  told :
      (event : Value)
      → is_result event ≡ false
      → Step answer s (record s { bridge = (handle_event event s.bridge).1 })
  returns :
      (n : ℕ) (v : Value)
      → s.holder ≡ some n
      → outcome n s.bridge.futures ≡ some (ok v)
      → Step answer s (record s { holder = none; returned = (n, v) ∷ s.returned })
  raises :
      (n : ℕ) (e : Exc)
      → s.holder ≡ some n
      → outcome n s.bridge.futures ≡ some (err e)
      → Step answer s (record s { holder = none })
  -- the time is up, or the drain failed behind a write that the daemon has got
  gives_up :
      (n : ℕ)
      → s.holder ≡ some n
      → outcome n s.bridge.futures ≡ none
      → Step answer s
          (record s { bridge = (await_result n s.bridge).1; holder = none; given_up = true })
  -- the task of the sender is cancelled, and its future with it
  cancelled :
      (n : ℕ)
      → s.holder ≡ some n
      → Step answer s (record s { bridge = cancel n s.bridge; holder = none })
  lost : Step answer s (record s { bridge = connection_lost s.bridge; unanswered = [] })

pub data Reach (answer : ℕ → Value) (s : System) : System → Type 0 where
  here : Reach answer s s
  next : {t u : System} → Reach answer s t → Step answer t u → Reach answer s u
