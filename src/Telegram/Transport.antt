-- ===== src/Telegram/Transport.antt =====
-- channels/telegram_channel/tg_transport.py. The limiter is asyncio.sleep, which changes nothing.
pub mod Classified
use delta_gateway_chat_woot.Base.{
  ℤ, String, str_eq, join, trim, Bool, true, false, List, [], ◌∷◌, Option, none, some,
  if◌then◌else◌,
}
use delta_gateway_chat_woot.Errors.{
  Exc, telegram_network_error, client_connector_error, timeout_error, server_disconnected_error,
  telegram_retry_after, telegram_api_error, rate_limit_error, fatal_error, transient_default,
  type_error, Result, ok, err, ◌>>=ᵣ◌,
}
use delta_gateway_chat_woot.Exec.{Exec, ◌>>=◌, ◌>>◌, pure, raise, lift, attempt}
use delta_gateway_chat_woot.Models.{ExternalId, Envelope, ChannelDeliveryResult}
use delta_gateway_chat_woot.Values.{
  Value, null, bool, int, str, arr, obj, nil, truthy, or_value, get_value, get_default, iterate,
}
use delta_gateway_chat_woot.Values.Text.{text_of}

-- The Bot API with the bot manager, by connector. Each method gives the new message's id.
pub record BotApi (S : Type 0) : Type 0 where
  pub get_bot_by_connector_id : String → Result (Unit {0})
  pub send_message : String → ExternalId → String → Exec S String
  pub send_photo : String → ExternalId → Value → Exec S String
  pub send_video : String → ExternalId → Value → Exec S String
  pub send_audio : String → ExternalId → Value → Exec S String
  pub send_document : String → ExternalId → Value → Exec S String

-- The except clauses, in their order; the last one catches what is left.
unfoldable pub classify : Exc → Exc
classify telegram_network_error = transient_default
classify client_connector_error = transient_default
classify timeout_error = transient_default
classify server_disconnected_error = transient_default
classify (telegram_retry_after retry_after) = rate_limit_error retry_after
classify (telegram_api_error (some retry_after)) = rate_limit_error retry_after
classify _ = fatal_error

-- the method for a file_type
abbrev pub Sender : Type 0 → Type 0
Sender S = String → ExternalId → Value → Exec S String

unfoldable pub sender_for : {S : Type 0} → BotApi S → Value → Sender S
sender_for api (str t) =
    if str_eq t "image"
    then api.send_photo
    else if str_eq t "video"
    then api.send_video
    else if str_eq t "audio"
    then api.send_audio
    else api.send_document
sender_for api _ = api.send_document

-- What the message carries: str(payload.get("text") or "").strip() and the attachments.
unfoldable pub text_to_send : Value → Result String
text_to_send payload =
    get_value "text" payload >>=ᵣ λ text. ok (trim (text_of (or_value text (str ""))))

module _ {S : Type 0} (api : BotApi S) (connector_id : String) (chat_id : ExternalId) where
  unfoldable pub send_attachments : List Value → Exec S (List String)
  send_attachments [] = pure []
  send_attachments (attachment ∷ rest) = do
    data_url ← lift (get_value "data_url" attachment)
    let others = send_attachments rest
    if truthy data_url
        then (do
          file_type ← lift (get_default "file_type" (str "file") attachment)
          sent ← sender_for api file_type connector_id chat_id data_url
          ids ← others
          pure (sent ∷ ids))
        else others

  unfoldable pub send_text : String → Exec S (List String)
  send_text text =
      if str_eq text ""
      then pure []
      else (do i ← api.send_message connector_id chat_id text; pure (i ∷ []))

abbrev append_ids : List String → List String → List String
append_ids [] ids = ids
append_ids (i ∷ is) ids = i ∷ append_ids is ids

-- if not sent_message_ids: raise FatalError
delivery : List String → Result ChannelDeliveryResult
delivery [] = err fatal_error
delivery (i ∷ is) = ok (record { delivered = true; external_id = some (join "," (i ∷ is)) })

module _ {S : Type 0} (api : BotApi S) where
  -- the body of the `try`
  unfoldable pub deliver : String → ExternalId → String → Value → Exec S ChannelDeliveryResult
  unfolding delivery
  deliver connector_id chat_id text attachments = do
    text_ids ← send_text api connector_id chat_id text
    each ← lift (iterate attachments)
    ids ← send_attachments api connector_id chat_id each
    lift (delivery (append_ids text_ids ids))

  -- send_to_telegram_user, after the message was validated as an envelope
  unfoldable pub send_to_telegram_user : Envelope → Exec S ChannelDeliveryResult
  send_to_telegram_user envelope = do
    lift (api.get_bot_by_connector_id envelope.connector_id)
    text ← lift (text_to_send (obj envelope.payload))
    attachments ← lift (get_default "attachments" (arr nil) (obj envelope.payload))
    attempt (deliver envelope.connector_id envelope.sender.external_id text attachments)
        (λ e. raise (classify e))
