-- ===== src/Publish.antt =====
-- The publishing step of every channel's message processor
-- (channels/delta_chat_channel/dc_message_processor.py, channels/telegram_channel/
-- tg_message_processor.py and the others): look for the idempotency key, send, then mark the key.
pub mod Outcomes
pub mod Once
use delta_gateway_chat_woot.Base.{String, if◌then◌else◌}
use delta_gateway_chat_woot.Base.Dict.{Dict}
use delta_gateway_chat_woot.Errors.{idempotency_key_already_processed_error}
use delta_gateway_chat_woot.Exec.{Exec, ◌>>=◌, ◌>>◌, raise}
use delta_gateway_chat_woot.Models.{Envelope, model_dump}
use delta_gateway_chat_woot.World.{World}
use delta_gateway_chat_woot.Queue.{Pgmq, Json, send, is_already_processed, mark_as_processed}

module _ {Q : Type 0} (pg : Pgmq Q) (json : Json) (carrier : Dict String) where
  unfoldable pub process_queue : String → String → Envelope → Exec (World Q) (Unit {0})
  process_queue queue_name idempotency_key envelope = do
    send pg json carrier queue_name (model_dump envelope)
    mark_as_processed idempotency_key

  unfoldable pub publish_message : String → String → Envelope → Exec (World Q) (Unit {0})
  publish_message queue_name idempotency_key envelope = do
    processed ← is_already_processed idempotency_key
    if processed
        then raise idempotency_key_already_processed_error
        else process_queue queue_name idempotency_key envelope
