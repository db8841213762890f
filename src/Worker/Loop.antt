-- ===== src/Worker/Loop.antt =====
-- app/workers/base.py: one turn of `run`, up to the messages that it processes. `arrived` says
-- whether a notification comes before the timeout; the sleep after a failed read changes nothing.
use delta_gateway_chat_woot.Base.{ℕ, String, Bool, List, [], ◌∷◌, ◌≡◌, refl, ap}
use delta_gateway_chat_woot.Errors.{Exc, Result, ok, err}
use delta_gateway_chat_woot.Exec.{Exec, ◌>>=◌, ◌>>◌, pure, attempt, resume, continue}
use delta_gateway_chat_woot.World.{World}
use delta_gateway_chat_woot.Queue.{Row, Pgmq, read, wait_for_notification}

module _ {Q : Type 0} (pg : Pgmq Q) (queue_name : String) (vt limit : ℕ) where
  unfoldable pub safe_read_queue : Exec (World Q) (List Row)
  safe_read_queue = attempt (read pg queue_name vt limit) (λ e. pure [])

  unfoldable pub handle_no_messages : Bool → Exec (World Q) (Unit {0})
  handle_no_messages arrived = do notified ← wait_for_notification queue_name arrived; pure tt

  -- The messages for _process_messages, or none after a wait.
  abbrev received : Bool → List Row → Exec (World Q) (List Row)
  received arrived [] = do handle_no_messages arrived; pure []
  received arrived (m ∷ ms) = pure (m ∷ ms)

  unfoldable pub turn : Bool → Exec (World Q) (List Row)
  turn arrived = do messages ← safe_read_queue; received arrived messages

  after_wait :
      (r : Result (Unit {0})) (w : World Q) (e : Exc)
      → (continue r (λ u. pure {A = List Row} []) w).0 ≡ err e
      → r ≡ err e
  after_wait (ok u) w e h = cc h
  after_wait (err x) w e h = cc h

  received-raises :
      (arrived : Bool) (ms : List Row) (w : World Q) (e : Exc)
      → (received arrived ms w).0 ≡ err e
      → (ms ≡ []) × ((handle_no_messages arrived w).0 ≡ err e)
  received-raises arrived [] w e h = (refl, after_wait (handle_no_messages arrived w).0 _ e h)
  received-raises arrived (m ∷ ms) w e h = (cc h, cc h)

  turn-raises_after :
      (arrived : Bool) (r : Result (List Row)) (w : World Q) (e : Exc)
      → (continue (resume r (λ x. pure []) w).0 (received arrived) (resume r (λ x. pure []) w).1).0
        ≡ err e
      → ((resume r (λ x. pure []) w).0 ≡ ok [])
        × ((handle_no_messages arrived (resume r (λ x. pure []) w).1).0 ≡ err e)
  turn-raises_after arrived (ok ms) w e h =
      let (none_read, raised) = received-raises arrived ms w e h in (ap ok none_read, raised)
  turn-raises_after arrived (err x) w e h = (refl, (received-raises arrived [] w e h).1)

  -- No failure to read ends a worker: if a turn of its loop raises, the read has given no message,
  -- and it is the wait for a notification that has raised.
  pub turn-raises :
      (arrived : Bool) (w : World Q) (e : Exc)
      → (turn arrived w).0 ≡ err e
      → ((safe_read_queue w).0 ≡ ok [])
        × ((handle_no_messages arrived (safe_read_queue w).1).0 ≡ err e)
  unfolding turn safe_read_queue
  turn-raises arrived w e h =
      turn-raises_after arrived (read pg queue_name vt limit w).0 (read pg queue_name vt limit w).1
        e h
