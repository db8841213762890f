-- ===== src/Telegram/Factory.antt =====
-- channels/telegram_channel/tg_envelope_factory.py. The hash of the keys and the time are arguments.
pub mod Routes
use Prim.Native.String.{slice}
use delta_gateway_chat_woot.Base.{
  ℕ, ◌-◌, String, append, len, trim, List, [], ◌∷◌, Option, none, some, if◌then◌else◌,
}
use delta_gateway_chat_woot.Errors.{
  Exc, key_error, wrong_update_type_error, Result, ok, err, ◌>>=ᵣ◌,
}
use delta_gateway_chat_woot.Envelope.{build_idempotency_key}
use delta_gateway_chat_woot.Models.{Envelope, SenderInfo, ExternalId, external_id_of, optional_text}
use delta_gateway_chat_woot.Values.{
  Value, null, str, arr, obj, end, Members, arr_of, obj_of, truthy, get_value, get_default, index,
  first,
}
use delta_gateway_chat_woot.Values.Text.{text_of}
use delta_gateway_chat_woot.Telegram.Routing.{
  Routing, Route, InboxRoute, get_route_by_connector_id, get_route_by_inbox_id,
}
use delta_gateway_chat_woot.Telegram.Extract.{
  extract_telegram_attachments, extract_chatwoot_attachments,
}

-- s[-5:]
last_five : String → String
last_five s = slice s (len s - 5) (len s)

-- except KeyError: raise WrongUpdateTypeError
wrong_update : {A : Type 0} → Exc → Result A
wrong_update key_error = err wrong_update_type_error
wrong_update e = err e

message_from : Value → Result Value
unfolding wrong_update
message_from raw_data = elim (index "message" raw_data >>=ᵣ λ message. index "from" message) [
  | ok v ↦ ok v
  | err e ↦ wrong_update e
]

unfoldable pub parse_sender_info : Value → Result SenderInfo
unfolding message_from
parse_sender_info raw_data = message_from raw_data >>=ᵣ λ info.
    get_default "first_name" (str " ") info >>=ᵣ λ first_name.
    get_default "last_name" (str " ") info >>=ᵣ λ last_name. index "id" info >>=ᵣ λ id.
    get_default "username" (str "") info >>=ᵣ λ username. external_id_of id >>=ᵣ λ external_id.
    optional_text username >>=ᵣ λ nickname. ok (record {
      external_id = external_id;
      raw_external_id = none;
      name = some (trim (append (text_of first_name) (append " " (text_of last_name))));
      nickname = nickname;
    })

-- the text of the message, or its caption
unfoldable pub get_message_text : Value → Result Value
get_message_text raw_data = get_default "message" (obj end) raw_data >>=ᵣ λ message.
    get_value "text" message >>=ᵣ λ text.
    if truthy text then ok text else get_default "caption" (str "") message

pub suffix_entry : String → List (String × String)
unfolding last_five
suffix_entry bot_token = ("bot_token_suffix", last_five bot_token) ∷ []

module _ (hash : String → String) (now : ℕ) (r : Routing) where
  unfoldable pub parse_channel_request : Value → String → String → Result (String × Envelope)
  unfolding suffix_entry
  parse_channel_request raw_data connector_id channel =
      get_route_by_connector_id r connector_id >>=ᵣ λ route.
      parse_sender_info raw_data >>=ᵣ λ sender_info. get_message_text raw_data >>=ᵣ λ text.
      extract_telegram_attachments raw_data >>=ᵣ λ attachments.
      index "message" raw_data >>=ᵣ λ message. index "message_id" message >>=ᵣ λ message_id.
      build_idempotency_key hash (append channel "->chatwoot") route.connector_id
        sender_info.external_id (text_of message_id) (suffix_entry route.bot_token)
      >>=ᵣ λ idempotency_key. ok (
        idempotency_key,
        record {
          idem_key = idempotency_key;
          channel = channel;
          from = channel;
          to = "chatwoot";
          connector_id = route.connector_id;
          cw_inbox_id = route.cw_inbox_id;
          message_id = text_of message_id;
          cw_account_id = route.cw_account_id;
          sender = sender_info;
          payload = obj_of (
              ("text", text)
              ∷ ("attachments", arr (arr_of attachments))
              ∷ ("raw_data", raw_data)
              ∷ []);
          ts = now;
        },
      )

  unfoldable pub parse_chatwoot_request : Value → String → String → Result (String × Envelope)
  unfolding suffix_entry
  parse_chatwoot_request raw_data cw_account_id channel = index "inbox" raw_data >>=ᵣ λ inbox.
      index "id" inbox >>=ᵣ λ inbox_id. get_route_by_inbox_id r (text_of inbox_id) >>=ᵣ λ route.
      extract_chatwoot_attachments raw_data >>=ᵣ λ attachments.
      index "conversation" raw_data >>=ᵣ λ conversation. index "meta" conversation >>=ᵣ λ meta.
      index "sender" meta >>=ᵣ λ sender. index "identifier" sender >>=ᵣ λ identifier.
      external_id_of identifier >>=ᵣ λ external_id. index "messages" conversation >>=ᵣ λ messages.
      first messages >>=ᵣ λ message. index "id" message >>=ᵣ λ message_id.
      build_idempotency_key hash (append "chatwoot->" channel) route.connector_id external_id
        (text_of message_id) (suffix_entry route.bot_token)
      >>=ᵣ λ idempotency_key. get_default "content" (str "") raw_data >>=ᵣ λ text. ok (
        idempotency_key,
        record {
          idem_key = idempotency_key;
          channel = channel;
          from = "chatwoot";
          to = channel;
          connector_id = route.connector_id;
          cw_inbox_id = text_of inbox_id;
          message_id = text_of message_id;
          cw_account_id = cw_account_id;
          sender = record {
            external_id = external_id;
            raw_external_id = none;
            name = none;
            nickname = none;
          };
          payload = obj_of (("text", text) ∷ ("attachments", arr (arr_of attachments)) ∷ []);
          ts = now;
        },
      )
