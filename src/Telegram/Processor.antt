-- ===== src/Telegram/Processor.antt =====
-- channels/telegram_channel/tg_message_processor.py and tg_channel.py: the Telegram channel over the
-- database. The bot manager raises KeyError for a connector that it does not know.
pub mod Repeats
use delta_gateway_chat_woot.Base.{
  ℕ, String, Bool, true, false, List, [], ◌∷◌, Option, none, some, if◌then◌else◌,
}
use delta_gateway_chat_woot.Base.Dict.{Dict}
use delta_gateway_chat_woot.Errors.{Exc, Result, ok, err, ◌>>=ᵣ◌}
use delta_gateway_chat_woot.Exec.{Exec, ◌>>=◌, ◌>>◌, pure, raise, lift, when}
use delta_gateway_chat_woot.Models.{Envelope, ChannelDeliveryResult}
use delta_gateway_chat_woot.Values.{Value, index}
use delta_gateway_chat_woot.Values.Text.{text_of}
use delta_gateway_chat_woot.World.{World}
use delta_gateway_chat_woot.Queue.{Pgmq, Json}
use delta_gateway_chat_woot.Publish.{publish_message}
use delta_gateway_chat_woot.Registry.{Channel}
use delta_gateway_chat_woot.Telegram.Routing.{Routing}
use delta_gateway_chat_woot.Telegram.Factory.{parse_channel_request, parse_chatwoot_request}
use delta_gateway_chat_woot.Telegram.Prepare.{FileApi, Limits, prepare_attachments}
use delta_gateway_chat_woot.Telegram.Transport.{BotApi}

-- the settings and objects that the processor holds
pub record Processor (Q B : Type 0) : Type 0 where
  pub pg : Pgmq Q
  pub json : Json
  pub carrier : Dict String
  pub hash : String → String
  pub now : ℕ
  pub routing : Routing
  pub files : FileApi (World Q) B
  pub limits : Limits
  pub enable_channel_delivery_confirmation : Bool
  pub incoming_queue_name : String
  pub outgoing_queue_name : String

module _ {Q B : Type 0} (p : Processor Q B) where
  unfoldable pub build_channel_message : Value → Exec (World Q) (String × Envelope)
  build_channel_message raw_data = do
    connector_id ← lift (index "connector_id" raw_data)
    channel ← lift (index "channel" raw_data)
    parsed ← lift (
        parse_channel_request p.hash p.now p.routing raw_data (text_of connector_id)
          (text_of channel))
    prepared ← prepare_attachments p.files p.limits parsed.1
    pure (parsed.0, prepared)

  -- raw_data["message"]["chat"]["id"]
  chat_of : Value → Result Value
  chat_of raw_data =
      index "message" raw_data >>=ᵣ λ message. index "chat" message >>=ᵣ λ chat. index "id" chat

  send_delivery_confirmation : String → Value → Exec (World Q) (Unit {0})
  unfolding chat_of
  send_delivery_confirmation connector_id raw_data = do
    chat_id ← lift (chat_of raw_data)
    p.files.send_message connector_id (text_of chat_id) "Your message was sent successfully!"

  unfoldable pub publish_channel_message : String → Envelope → Value → Exec (World Q) (Unit {0})
  unfolding send_delivery_confirmation
  publish_channel_message idempotency_key envelope raw_data = do
    connector_id ← lift (index "connector_id" raw_data)
    lift (p.files.get_bot_by_connector_id (text_of connector_id))
    publish_message p.pg p.json p.carrier p.incoming_queue_name idempotency_key envelope
    when p.enable_channel_delivery_confirmation
        (send_delivery_confirmation (text_of connector_id) raw_data)

  unfoldable pub publish_chatwoot_message : Value → String → String → Exec (World Q) (Unit {0})
  publish_chatwoot_message raw_data cw_account_id channel = do
    parsed ← lift (parse_chatwoot_request p.hash p.now p.routing raw_data cw_account_id channel)
    publish_message p.pg p.json p.carrier p.outgoing_queue_name parsed.0 parsed.1

  -- The channel object with the given identity; its transport is an argument.
  unfoldable pub telegram_channel :
      ℕ → (Value → Exec (World Q) ChannelDeliveryResult) → Channel (World Q)
  telegram_channel id send_to_user = record {
    id = id;
    channel = "telegram";
    send_to_user = send_to_user;
    build_channel_message = build_channel_message;
    publish_channel_message = publish_channel_message;
    publish_chatwoot_message =
        λ raw_data cw_account_id. publish_chatwoot_message raw_data cw_account_id "telegram";
  }
