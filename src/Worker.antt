-- ===== src/Worker.antt =====
-- app/workers/base.py: what a worker does with one message. The handler of the subclass,
-- `handle_message`, is an argument. The loop and its tasks are in Worker/Tasks.antt.
pub mod Settlement
pub mod Tasks
pub mod Loop
pub mod Delivery
use delta_gateway_chat_woot.Base.{
  ℕ, ℤ, String, Bool, true, false, List, [], Option, none, some, ltb, leb, if◌then◌else◌,
}
use delta_gateway_chat_woot.Base.Dict.{Dict}
use delta_gateway_chat_woot.Errors.{
  Exc, transient_error, fatal_error, Result, ok, err, value_error, ◌>>=ᵣ◌,
}
use delta_gateway_chat_woot.Exec.{Exec, ◌>>=◌, ◌>>◌, pure, raise, lift, attempt}
use delta_gateway_chat_woot.Values.{Value, null, bool, int, str, arr, obj, Members}
use delta_gateway_chat_woot.Trace.{extract_trace_context}
use delta_gateway_chat_woot.World.{World}
use delta_gateway_chat_woot.Queue.{Row, Pgmq, Json, read, delete, archive, set_vt}

-- the outcomes that _handle_with_retries names
pub data Outcome : Type 0 where
  deleted archived_transient_exhausted retry_scheduled archived_fatal : Outcome
  archived_max_attempts left_visible : Outcome

-- what _prepare_message returns
pub record Prepared : Type 0 where
  pub msg_id : ℕ
  pub attempts : ℕ
  pub payload : Members
  pub parent_context : Option (Dict String)

-- A message that is a text of a JSON object, or a ValueError.
unfoldable pub decode_payload : Json → Value → Result Members
decode_payload json (str t) = json.loads t >>=ᵣ λ v. elim v [ obj m ↦ ok m | _ ↦ err value_error ]
decode_payload json _ = err value_error

unfoldable pub prepare_message : Json → Row → Result Prepared
prepare_message json row = decode_payload json row.message >>=ᵣ λ m.
    let (context, payload) = extract_trace_context m in
    ok (record {
      msg_id = row.msg_id;
      attempts = row.read_ct;
      payload = payload;
      parent_context = context;
    })

module _ {Q : Type 0} (pg : Pgmq Q) (queue_name : String) where
  unfoldable pub handle_error : ℕ → Exc → ℕ → Exec (World Q) Outcome
  handle_error msg_id (transient_error max_attempts delay) attempts =
      if leb max_attempts attempts
      then (archive pg queue_name msg_id >> pure archived_transient_exhausted)
      else (set_vt pg queue_name msg_id delay >> pure retry_scheduled)
  handle_error msg_id fatal_error attempts = archive pg queue_name msg_id >> pure archived_fatal
  handle_error msg_id _ attempts =
      if ltb 10 attempts
      then (archive pg queue_name msg_id >> pure archived_max_attempts)
      else pure left_visible

  module _ (handle_message : Members → Exec (World Q) (Unit {0})) where
    -- the outcome, and the error that was handled
    unfoldable pub handle_with_retries : ℕ → Members → ℕ → Exec (World Q) (Outcome × Option Exc)
    handle_with_retries msg_id payload attempts =
        attempt (do handle_message payload; delete pg queue_name msg_id; pure (deleted, none))
          (λ e. do outcome ← handle_error msg_id e attempts; pure (outcome, some e))

    -- The spans of _process_message are telemetry; what it raises is what is raised here.
    unfoldable pub process_wrapper : Json → Row → Exec (World Q) (Outcome × Option Exc)
    process_wrapper json row = do
      p ← lift (prepare_message json row)
      handle_with_retries p.msg_id p.payload p.attempts
