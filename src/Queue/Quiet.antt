-- ===== src/Queue/Quiet.antt =====
-- The queue's operations on a database that answers: no fault lies ahead.
use delta_gateway_chat_woot.Base.{ℕ, ℤ, String, true, [], ◌≡◌}
use delta_gateway_chat_woot.Base.Dict.{Dict}
use delta_gateway_chat_woot.Errors.{ok}
use delta_gateway_chat_woot.Values.{Members, obj}
use delta_gateway_chat_woot.Trace.{inject_trace_context}
use delta_gateway_chat_woot.World.{World}
use delta_gateway_chat_woot.World.Runs.{moved, query_quiet}
use delta_gateway_chat_woot.Queue.{
  Pgmq, Json, on_queue, take_rows, vt_seconds, has_key, select_key, insert_key, send, read, delete,
  archive, set_vt, is_already_processed, mark_as_processed,
}

-- `w` with a pool, no faults, and another queue
abbrev pub with_queue : {Q : Type 0} → World Q → Q → World Q
with_queue w q = record w { pool = true; faults = []; queue = q }

module _ {Q : Type 0} (pg : Pgmq Q) (queue_name : String) (w : World Q)
    (quiet : w.faults ≡ []) where
  pub send_quiet :
      (json : Json) (carrier : Dict String) (m : Members)
      → send pg json carrier queue_name (obj m) w ≡ (
        ok tt,
        with_queue w
            (pg.send queue_name (json.dumps (obj (inject_trace_context carrier m))) w.queue),
      )
  unfolding send on_queue
  send_quiet json carrier m = query_quiet _ _ w quiet

  pub delete_quiet :
      (msg_id : ℕ)
      → delete pg queue_name msg_id w ≡ (ok tt, with_queue w (pg.delete queue_name msg_id w.queue))
  unfolding delete on_queue
  delete_quiet msg_id = query_quiet _ _ w quiet

  pub archive_quiet :
      (msg_id : ℕ)
      → archive pg queue_name msg_id w
        ≡ (ok tt, with_queue w (pg.archive queue_name msg_id w.queue))
  unfolding archive on_queue
  archive_quiet msg_id = query_quiet _ _ w quiet

  pub set_vt_quiet :
      (msg_id : ℕ) (delay : ℤ)
      → set_vt pg queue_name msg_id delay w
        ≡ (ok tt, with_queue w (pg.set_vt queue_name msg_id (vt_seconds delay) w.queue))
  unfolding set_vt on_queue
  set_vt_quiet msg_id delay = query_quiet _ _ w quiet

  pub read_quiet :
      (vt limit : ℕ)
      → read pg queue_name vt limit w ≡ (
        ok (pg.read queue_name vt limit w.queue).0,
        with_queue w (pg.read queue_name vt limit w.queue).1,
      )
  unfolding read take_rows
  read_quiet vt limit = query_quiet _ _ w quiet

module _ {Q : Type 0} (key : String) (w : World Q) (quiet : w.faults ≡ []) where
  pub mark_quiet : mark_as_processed key w ≡ (ok tt, (insert_key key (moved w true [])).1)
  unfolding mark_as_processed insert_key
  mark_quiet = query_quiet _ _ w quiet

  pub look_quiet : is_already_processed key w ≡ (ok (has_key key w.processed_keys), moved w true [])
  unfolding is_already_processed select_key
  look_quiet = query_quiet _ _ w quiet
