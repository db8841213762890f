-- ===== src/Signal/Bridge.antt =====
-- channels/signal_channel/sig_bot_manager.py: one connection to signal-bridge. A future is the
-- number of the `send` that waits for it; `futures` has those that are done.
pub mod Steps
pub mod Fifo
pub mod Order
pub mod Stale
use delta_gateway_chat_woot.Base.{
  ℕ, ◌==◌, String, str_eq, Bool, true, false, List, [], ◌∷◌, ◌++◌, Option, none, some, any,
  if◌then◌else◌,
}
use delta_gateway_chat_woot.Errors.{
  Exc, signal_bridge_error, os_error, connection_error, runtime_error, value_error, Result, ok, err,
}
use delta_gateway_chat_woot.Exec.{
  Exec, ◌>>=◌, ◌>>◌, pure, raise, lift, gets, attempt, modify, resume,
}
use delta_gateway_chat_woot.Values.{Value, equals, get_value}

pub record Bridge : Type 0 where
  pub connected : Bool
  pub stopping : Bool
  pub pending : List ℕ
  pub futures : List (ℕ × Result Value)
  -- the futures that were cancelled
  pub cancelled : List ℕ
  pub inbound : List Value

abbrev pub new_bridge : Bridge
new_bridge = record {
  connected = false;
  stopping = false;
  pending = [];
  futures = [];
  cancelled = [];
  inbound = [];
}

-- What a future has, if it is done.
unfoldable pub outcome : ℕ → List (ℕ × Result Value) → Option (Result Value)
outcome f [] = none
outcome f ((g, r) ∷ done) = if g == f then some r else outcome f done

-- if not future.done(): future.set_result(...), or set_exception(...)
unfoldable pub complete : ℕ → Result Value → Bridge → Bridge
complete f r b = if any (λ g. g == f) b.cancelled then b else elim (outcome f b.futures) [
  | none ↦ record b { futures = (f, r) ∷ b.futures }
  | some q ↦ b
]

-- future.cancel(), which changes nothing of one that is done
unfoldable pub cancel : ℕ → Bridge → Bridge
cancel f b = elim (outcome f b.futures) [
  | none ↦ record b { cancelled = f ∷ b.cancelled }
  | some q ↦ b
]

resolve_first : List ℕ → Value → Bridge → Bridge
resolve_first [] event b = b
resolve_first (f ∷ fs) event b = complete f (ok event) (record b { pending = fs })

unfoldable pub resolve_pending : Value → Bridge → Bridge
unfolding resolve_first
resolve_pending event b = resolve_first b.pending event b

pub fail_all : List ℕ → Bridge → Bridge
fail_all [] b = record b { pending = [] }
fail_all (f ∷ fs) b = fail_all fs (complete f (err (signal_bridge_error true)) b)

unfoldable pub fail_pending : Bridge → Bridge
unfolding fail_all
fail_pending b = fail_all b.pending b

-- deque.remove: the first one goes
unfoldable pub discard : ℕ → List ℕ → List ℕ
discard f [] = []
discard f (g ∷ fs) = if g == f then fs else g ∷ discard f fs

unfoldable pub discard_pending : ℕ → Bridge → Bridge
discard_pending f b = record b { pending = discard f b.pending }

handle_typed : Value → Value → Bridge → Bridge
handle_typed type event b =
    if equals type "message"
    then record b { inbound = b.inbound ++ event ∷ [] }
    else if equals type "send_result"
    then resolve_pending event b
    else b

unfoldable pub handle_event : Value → Exec Bridge (Unit {0})
unfolding handle_typed
handle_event event = do type ← lift (get_value "type" event); modify (handle_typed type event)

-- One line of the stream; `loads` is json.loads, whose JSONDecodeError is a ValueError.
handle_line : (String → Result Value) → String → Exec Bridge (Unit {0})
handle_line loads line = elim (loads line) [
  | ok event ↦ handle_event event
  | err value_error ↦ pure tt
  | err e ↦ raise e
]

-- The lines up to the end of the stream.
unfoldable pub read_loop : (String → Result Value) → List String → Exec Bridge (Unit {0})
unfolding handle_line
read_loop loads [] = pure tt
read_loop loads (line ∷ lines) =
    let rest = read_loop loads lines in
    do
      stopping ← gets (λ b. b.stopping)
      if stopping then pure tt else (do handle_line loads line; rest)

-- `_run`: the connection is open, and the `finally` of the same turn.
unfoldable pub connect : Bridge → Bridge
connect b = record b { connected = true }

unfoldable pub connection_lost : Bridge → Bridge
unfolding fail_pending
connection_lost b = fail_pending (record b { connected = false })

-- The part of `send` up to the write, under the lock.
unfoldable pub begin_send : ℕ → Exec Bridge (Unit {0})
begin_send f = do
  connected ← gets (λ b. b.connected)
  if connected
      then modify (λ b. record b { pending = b.pending ++ f ∷ [] })
      else raise (signal_bridge_error true)

-- asyncio.wait_for and its except clause: no outcome means that the time is up. That the future is
-- cancelled then is not recorded, since nothing holds it any more.
unfoldable pub await_result : ℕ → Exec Bridge Value
await_result f b = elim (outcome f b.futures) [
  | none ↦ (err (signal_bridge_error true), discard_pending f b)
  | some r ↦ (r, b)
]

-- except (OSError, RuntimeError)
write_error : ℕ → Exc → Exec Bridge (Unit {0})
write_error f os_error = do modify (discard_pending f); raise (signal_bridge_error true)
write_error f connection_error = do modify (discard_pending f); raise (signal_bridge_error true)
write_error f runtime_error = do modify (discard_pending f); raise (signal_bridge_error true)
write_error f e = raise e

-- `written` is what the write and the drain give, and `meanwhile` what the events change until the
-- future is done or the time is up.
unfoldable pub send : ℕ → Result (Unit {0}) → (Bridge → Bridge) → Exec Bridge Value
unfolding write_error
send f written meanwhile = do
  begin_send f
  attempt (lift written) (write_error f)
  modify meanwhile
  await_result f
