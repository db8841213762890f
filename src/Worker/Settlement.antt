-- ===== src/Worker/Settlement.antt =====
-- How each way of handling a message settles it in the queue.
use delta_gateway_chat_woot.Base.{
  ℕ, ℤ, zero, suc, pos, negsuc, String, Bool, true, false, Bool-cases, [], some, ◌≡◌, inl, inr,
  refl, sym, ap, ◌∙◌, arith, ltb, leb, if◌then◌else◌,
}
use delta_gateway_chat_woot.Errors.{Exc, transient_error, fatal_error, Result, ok, err}
use delta_gateway_chat_woot.Exec.{Exec}
use delta_gateway_chat_woot.Exec.Laws.{state-bind_pure}
use delta_gateway_chat_woot.Values.{Members}
use delta_gateway_chat_woot.World.{World}
use delta_gateway_chat_woot.Queue.Quiet.{delete_quiet, archive_quiet, set_vt_quiet}
use delta_gateway_chat_woot.Queue.{Pgmq, vt_seconds}
use delta_gateway_chat_woot.Worker.{
  Outcome, archived_transient_exhausted, retry_scheduled, archived_fatal, archived_max_attempts,
  left_visible, deleted, handle_error, handle_with_retries,
}

-- What may become of a message after it was read once more.
pub data Fate : Type 0 where
  gone kept : Fate
  -- out of the queue, and stored in the archive
  stored : Fate
  -- hidden for some seconds
  hidden : ℕ → Fate

-- The contract of _handle_message: success deletes; a transient error hides the message for its
-- delay, at least a second, until it has used up its deliveries; a fatal error stores it; any
-- other error leaves it, up to ten deliveries.
abbrev pub contract : Result (Unit {0}) → ℕ → Fate
contract (ok _) n = gone
contract (err (transient_error limit (pos (suc d)))) n =
    if ltb n limit then hidden (suc d) else stored
contract (err (transient_error limit _)) n = if ltb n limit then hidden 1 else stored
contract (err fatal_error) n = stored
contract (err _) n = if leb n 10 then kept else stored

module _ {Q : Type 0} (pg : Pgmq Q) (queue_name : String) (msg_id : ℕ) where
  abbrev pub settle : Fate → Q → Q
  settle gone q = pg.delete queue_name msg_id q
  settle kept q = q
  settle stored q = pg.archive queue_name msg_id q
  settle (hidden s) q = pg.set_vt queue_name msg_id s q

  settled_error :
      (e : Exc) (n : ℕ) (w : World Q)
      → w.faults ≡ []
      → (handle_error pg queue_name msg_id e n w).1.queue ≡ settle (contract (err e) n) w.queue
  unfolding handle_error vt_seconds
  settled_error (transient_error limit (pos zero)) n w h =
      ground (
        arith,
        archive_quiet pg queue_name w h msg_id,
        set_vt_quiet pg queue_name w h msg_id (pos 0),
      )
  settled_error (transient_error limit (pos (suc d))) n w h = ground (
    arith,
    archive_quiet pg queue_name w h msg_id,
    set_vt_quiet pg queue_name w h msg_id (pos (suc d)),
  )
  settled_error (transient_error limit (negsuc d)) n w h = ground (
    arith,
    archive_quiet pg queue_name w h msg_id,
    set_vt_quiet pg queue_name w h msg_id (negsuc d),
  )
  settled_error fatal_error n w h = rw (archive_quiet pg queue_name w h msg_id)
  settled_error _ n w h = ground (arith, archive_quiet pg queue_name w h msg_id)

  module _ (handle_message : Members → Exec (World Q) (Unit {0})) (payload : Members) where
    -- On a database that answers after the handler, the message is settled exactly as the contract
    -- says for what the handler returned or raised.
    pub handle_with_retries-settles :
        (n : ℕ) (w : World Q) (r : Result (Unit {0})) (v : World Q)
        → handle_message payload w ≡ (r, v)
        → v.faults ≡ []
        → (handle_with_retries pg queue_name handle_message msg_id payload n w).1.queue
          ≡ settle (contract r n) v.queue
    unfolding handle_with_retries
    handle_with_retries-settles n w (ok u) v h quiet =
        rw h (rw (delete_quiet pg queue_name v quiet msg_id) refl)
    handle_with_retries-settles n w (err e) v h quiet = rw h (
        ap (λ v'. v'.queue)
          (state-bind_pure (λ o. (o, some e)) (handle_error pg queue_name msg_id e n) v)
        ∙ settled_error e n v quiet)

-- How many deliveries an error leaves a message.
abbrev pub allowance : Exc → ℕ
allowance (transient_error limit delay) = limit
allowance fatal_error = 0
allowance _ = 11

abbrev pub is_archived : Outcome → Bool
is_archived archived_transient_exhausted = true
is_archived archived_fatal = true
is_archived archived_max_attempts = true
is_archived _ = false

abbrev pub delay_of : Exc → ℕ
delay_of (transient_error limit (pos (suc d))) = suc d
delay_of _ = 1

-- What an outcome says of the message.
abbrev pub fate_of : Exc → Outcome → Fate
fate_of e deleted = gone
fate_of e retry_scheduled = hidden (delay_of e)
fate_of e left_visible = kept
fate_of e _ = stored

module _ {Q : Type 0} (pg : Pgmq Q) (queue_name : String) (msg_id : ℕ) where
  hidden_for : (limit : ℕ) (delay : ℤ) → vt_seconds delay ≡ delay_of (transient_error limit delay)
  unfolding vt_seconds
  hidden_for limit delay = ground arith

  -- On a database that answers, handling an error returns an outcome, which says what has become of
  -- the message in the queue: it is archived exactly if it has been delivered as often as the error
  -- allows, else hidden for the delay of the error or left as it is.
  pub handle_error-archives :
      (e : Exc) (n : ℕ) (w : World Q)
      → w.faults ≡ []
      → (o : Outcome) × ((handle_error pg queue_name msg_id e n w).0 ≡ ok o)
        × (is_archived o ≡ leb (allowance e) n)
        × ((handle_error pg queue_name msg_id e n w).1.queue
            ≡ settle pg queue_name msg_id (fate_of e o) w.queue)
  unfolding handle_error
  handle_error-archives (transient_error limit delay) n w h = elim (Bool-cases (leb limit n)) [
    | inl over ↦ (
      archived_transient_exhausted,
      rw over (rw (archive_quiet pg queue_name w h msg_id)),
      sym over,
      rw over (rw (archive_quiet pg queue_name w h msg_id)),
    )
    | inr under ↦ (
      retry_scheduled,
      rw under (rw (set_vt_quiet pg queue_name w h msg_id delay)),
      sym under,
      rw under (
          rw (set_vt_quiet pg queue_name w h msg_id delay)
            (ap (λ t. pg.set_vt queue_name msg_id t w.queue) (hidden_for limit delay))),
    )
  ]
  handle_error-archives fatal_error n w h = (
    archived_fatal,
    rw (archive_quiet pg queue_name w h msg_id),
    ground arith,
    rw (archive_quiet pg queue_name w h msg_id),
  )
  handle_error-archives _ n w h = elim (Bool-cases (ltb 10 n)) [
    | inl over ↦ (
      archived_max_attempts,
      rw over (rw (archive_quiet pg queue_name w h msg_id)),
      ground arith,
      rw over (rw (archive_quiet pg queue_name w h msg_id)),
    )
    | inr under ↦ (left_visible, rw under, ground arith, rw under)
  ]
