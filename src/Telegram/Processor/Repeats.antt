-- ===== src/Telegram/Processor/Repeats.antt =====
-- Telegram updates that come again.
use delta_gateway_chat_woot.Base.{ℕ, Bool, String, true, [], none, some, ◌≡◌, refl, ap, ◌∙◌}
use delta_gateway_chat_woot.Errors.{ok, err, idempotency_key_already_processed_error}
use delta_gateway_chat_woot.Models.{Envelope, ChannelDeliveryResult}
use delta_gateway_chat_woot.Values.{Value, str, index}
use delta_gateway_chat_woot.Values.Text.{text_of}
use delta_gateway_chat_woot.World.{World}
use delta_gateway_chat_woot.World.Runs.{moved}
use delta_gateway_chat_woot.Queue.{has_key}
use delta_gateway_chat_woot.Queue.Quiet.{look_quiet}
use delta_gateway_chat_woot.Publish.{publish_message}
use delta_gateway_chat_woot.Webhooks.{assign, handle_channel_payload}
use delta_gateway_chat_woot.Webhooks.Answers.{answer, answering_lem}
use delta_gateway_chat_woot.Telegram.Processor.{
  Processor, build_channel_message, publish_channel_message, telegram_channel,
}
use delta_gateway_chat_woot.Orchestrator.{address_sender, process}
use delta_gateway_chat_woot.Registry.{Channel, get_channel}
use delta_gateway_chat_woot.Base.Dict.{Dict}
use delta_gateway_chat_woot.Exec.{Exec}

repeated_step :
    {Q B : Type 0} (p : Processor Q B) (key : String) (envelope : Envelope)
    (raw_data connector_id : Value) (w : World Q)
    → index "connector_id" raw_data ≡ ok connector_id
    → p.files.get_bot_by_connector_id (text_of connector_id) ≡ ok tt
    → w.faults ≡ []
    → has_key key w.processed_keys ≡ true
    → publish_channel_message p key envelope raw_data w
      ≡ (err idempotency_key_already_processed_error, moved w true [])
unfolding publish_channel_message publish_message
repeated_step p key envelope raw_data connector_id w h b quiet k =
    rw h (rw b (rw (look_quiet key w quiet, k) refl))

-- A webhook with an update for a connector that has a bot, of which an envelope is built under a key
-- and addressed; the world is `u` then. If the database answers from there on and the key is marked
-- in `u`, the webhook is answered 200 and nothing is written any more: no message to the queue, no
-- key, and no second confirmation to the user.
pub handle_channel_payload-repeated :
    {Q B : Type 0} (p : Processor Q B) (uuid : ℕ → String) (anonymize_users : Bool)
    (username : String) (channels : Dict (Channel (World Q))) (channel connector_id : String)
    (id : ℕ) (send_to_user : Value → Exec (World Q) ChannelDeliveryResult)
    (payload named raw_data connector : Value) (key : String) (envelope addressed : Envelope)
    (w v u : World Q)
    → assign "channel" (str channel) payload ≡ ok named
    → assign "connector_id" (str connector_id) named ≡ ok raw_data
    → index "connector_id" raw_data ≡ ok connector
    → get_channel channel channels ≡ ok (telegram_channel p id send_to_user)
    → build_channel_message p raw_data w ≡ (ok (key, envelope), v)
    → address_sender uuid anonymize_users username channel envelope v ≡ (ok addressed, u)
    → p.files.get_bot_by_connector_id (text_of connector) ≡ ok tt
    → u.faults ≡ []
    → has_key key u.processed_keys ≡ true
    → handle_channel_payload uuid anonymize_users username channels channel connector_id payload w
      ≡ (ok (some (record { status_code = 200; retry_after = none })), moved u true [])
unfolding handle_channel_payload process telegram_channel
handle_channel_payload-repeated p uuid anonymize_users username channels channel connector_id id
      send_to_user payload named raw_data connector key envelope addressed w v u is_named is_raw
      is_connector is_telegram built sent_by b quiet k =
    let step = repeated_step p key addressed raw_data connector u is_connector b quiet k in
    let run : process uuid anonymize_users username channels channel raw_data w
        ≡ (err idempotency_key_already_processed_error, moved u true []) =
      rw is_telegram (rw built (rw sent_by step)) in
    rw is_named (
      rw is_raw (
        answering_lem (process uuid anonymize_users username channels channel raw_data) w
        ∙ ap (λ o. (answer o.0, o.1)) run))
