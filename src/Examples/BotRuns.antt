-- ===== src/Examples/BotRuns.antt =====
-- The theorems on deliveries, files and repeated updates of the Telegram channel.
use delta_gateway_chat_woot.Base.{
  pos, trim, String, count, int_text, true, false, [], ◌∷◌, none, some, All, ◌≡◌, refl,
}
use delta_gateway_chat_woot.Base.Dict.{Dict, get}
use delta_gateway_chat_woot.Errors.{telegram_retry_after, ok, err}
use delta_gateway_chat_woot.Exec.{Exec, pure, raise}
use delta_gateway_chat_woot.Models.{
  Envelope, ChannelDeliveryResult, text, number, external_id_of, optional_text,
}
use delta_gateway_chat_woot.Values.{
  Value, str, null, arr, nil, obj, obj_of, dict_of, Members, find, set, index, get_value,
  get_default, or_value, truthy,
}
use delta_gateway_chat_woot.Values.Text.{text_of}
use delta_gateway_chat_woot.World.{World}
use delta_gateway_chat_woot.World.Runs.{moved}
use delta_gateway_chat_woot.Queue.{has_key}
use delta_gateway_chat_woot.Registry.{Channel, get_channel}
use delta_gateway_chat_woot.Webhooks.{assign, handle_channel_payload}
use delta_gateway_chat_woot.Worker.{handle_with_retries}
use delta_gateway_chat_woot.Worker.Settlement.{settle}
use delta_gateway_chat_woot.Worker.Delivery.{from_chatwoot_message}
use delta_gateway_chat_woot.Telegram.Routing.{new_routing, get_route_by_connector_id}
use delta_gateway_chat_woot.Telegram.Transport.{
  BotApi, text_to_send, deliver, send_text, send_to_telegram_user,
}
use delta_gateway_chat_woot.Telegram.Transport.Classified.{
  telegram_fate, send_to_telegram_user-settles,
}
use delta_gateway_chat_woot.Telegram.Prepare.{FileApi, Limits, prepare_each, prepare_attachments}
use delta_gateway_chat_woot.Telegram.Prepare.Sizes.{Yields, IsSmall, prepare_each-IsSmall}
use delta_gateway_chat_woot.Telegram.Processor.{Processor, build_channel_message, telegram_channel}
use delta_gateway_chat_woot.Telegram.Factory.{
  parse_sender_info, get_message_text, parse_channel_request,
}
use delta_gateway_chat_woot.Telegram.Extract.{
  kinds, all_media, one_media, media_entry, extract_telegram_attachments,
}
use delta_gateway_chat_woot.Telegram.Routing.Laws.{new_routing-returns}
use delta_gateway_chat_woot.Orchestrator.{address_sender}
use delta_gateway_chat_woot.Envelope.{add_channel_prefix, build_idempotency_key, extra_hash}
use delta_gateway_chat_woot.Telegram.Processor.Repeats.{handle_channel_payload-repeated}
use delta_gateway_chat_woot.Examples.{
  Log, pgmq, json, calm, letter, sample_channel, twelve_zeros, unary,
}
use delta_gateway_chat_woot.Examples.Bots.{bot, other, message, update}

-- a Bot API that limits the rate
abbrev refuse : {A B : Type 0} → String → A → B → Exec (World Log) String
refuse c a b = raise (telegram_retry_after (pos 30))

abbrev api : BotApi (World Log)
api = record {
  get_bot_by_connector_id = λ c. ok tt;
  send_message = refuse;
  send_photo = refuse;
  send_video = refuse;
  send_audio = refuse;
  send_document = refuse;
}

abbrev transport : Value → Exec (World Log) ChannelDeliveryResult
transport v = send_to_telegram_user api letter

abbrev to_telegram : Members
to_telegram = obj_of (("channel", str "telegram") ∷ [])

abbrev registered : Dict (Channel (World Log))
registered = ("telegram", sample_channel transport) ∷ []

named : get_value "channel" (obj to_telegram) ≡ ok (str "telegram")
unfolding get_value get_default find
named = refl

found : get_channel (text_of (str "telegram")) registered ≡ ok (sample_channel transport)
unfolding get_channel text_of get
found = refl

has_text : text_to_send (obj letter.payload) ≡ ok "hello"
unfolding text_to_send get_value get_default find or_value truthy text_of trim
has_text = refl

no_files : get_default "attachments" (arr nil) (obj letter.payload) ≡ ok (arr nil)
unfolding get_default find
no_files = refl

refused_by :
    deliver api "bot" (text "42") "hello" (arr nil) calm
    ≡ (err (telegram_retry_after (pos 30)), calm)
unfolding deliver send_text
refused_by = refl

send_to_telegram_user-settles_example :
    (handle_with_retries pgmq "outgoing"
      (from_chatwoot_message registered)
      4
      to_telegram
      2
      calm).1.queue
    ≡ settle pgmq "outgoing" 4 (telegram_fate (telegram_retry_after (pos 30)) 2) []
send_to_telegram_user-settles_example =
    send_to_telegram_user-settles api pgmq "outgoing" 4 2 registered to_telegram (str "telegram")
      (sample_channel transport) letter "hello" (arr nil) (telegram_retry_after (pos 30)) calm calm
      named found refl refl has_text no_files refused_by refl

abbrev files : FileApi (World Log) String
files = record {
  get_bot_by_connector_id = λ c. ok tt;
  get_file = λ c i. pure (some "photos/1");
  download_file = λ c p. pure "bytes";
  send_message = λ c chat t. pure tt;
  size = count;
  b64encode = λ b. b;
}

abbrev limits : Limits
limits = record {
  channel_upload_max_mb = 20;
  chatwoot_upload_max_mb = 40;
  oversize_file_message = "too large";
}

abbrev photo : Value
photo = dict_of (("file_id", str "f1") ∷ ("size", null) ∷ [])

prepare_each-IsSmall_example :
    Yields
      (All (IsSmall files limits "bot" "42"))
      (prepare_each files limits "bot" "42" (photo ∷ []))
prepare_each-IsSmall_example = prepare_each-IsSmall files limits "bot" "42" (photo ∷ [])

abbrev processor : Processor Log String
processor = record {
  pg = pgmq;
  json = json;
  carrier = [];
  hash = twelve_zeros;
  now = 0;
  routing = new_routing (bot ∷ other ∷ []);
  files = files;
  limits = limits;
  enable_channel_delivery_confirmation = true;
  incoming_queue_name = "incoming";
  outgoing_queue_name = "outgoing";
}

-- The update as the handler passes it on.
abbrev arrived : Value
arrived =
    dict_of (("message", message) ∷ ("connector_id", str "bot") ∷ ("channel", str "telegram") ∷ [])

abbrev update_key : String
update_key = "telegram->chatwoot:bot:000000000000:000000000000:000000000000"

abbrev first_letter : Envelope
first_letter = record {
  idem_key = update_key;
  channel = "telegram";
  from = "telegram";
  to = "chatwoot";
  connector_id = "bot";
  cw_inbox_id = "5";
  message_id = "1";
  cw_account_id = "3";
  sender = record {
    external_id = number (pos 42);
    raw_external_id = none;
    name = some "Ann";
    nickname = some "";
  };
  payload = obj_of (("text", str "hello") ∷ ("attachments", arr nil) ∷ ("raw_data", arrived) ∷ []);
  ts = 0;
}

abbrev seen : World Log
seen = record calm { processed_keys = update_key ∷ [] }

from_bot : index "connector_id" arrived ≡ ok (str "bot")
unfolding index find
from_bot = refl

named_update : assign "channel" (str "telegram") update ≡ ok arrived
unfolding assign set
named_update = refl

raw_update : assign "connector_id" (str "bot") arrived ≡ ok arrived
unfolding assign set
raw_update = refl

routed :
    get_route_by_connector_id (new_routing (bot ∷ other ∷ [])) "bot"
    ≡ ok (record {
      connector_id = "bot";
      cw_account_id = "3";
      cw_inbox_id = "5";
      bot_token = "1:abcdef";
    })
routed = (new_routing-returns bot [] (other ∷ []) ((refl, refl), tt)).0

sent_from : parse_sender_info arrived ≡ ok first_letter.sender
unfolding parse_sender_info index find get_default text_of trim external_id_of optional_text
sent_from = refl

says_hello : get_message_text arrived ≡ ok (str "hello")
unfolding get_message_text get_default get_value find truthy
says_hello = refl

carries_nothing : extract_telegram_attachments arrived ≡ ok []
unfolding extract_telegram_attachments kinds all_media one_media media_entry get_default get_value
    find truthy
carries_nothing = refl

parsed :
    parse_channel_request twelve_zeros 0 (new_routing (bot ∷ other ∷ [])) arrived "bot" "telegram"
    ≡ ok (update_key, first_letter)
unfolding parse_channel_request index find text_of int_text build_idempotency_key extra_hash
parsed = rw routed (rw sent_from (rw says_hello (rw carries_nothing refl)))

built : build_channel_message processor arrived seen ≡ (ok (update_key, first_letter), seen)
unfolding build_channel_message index find prepare_attachments get_default truthy text_of
built = rw parsed refl

abbrev channels : Dict (Channel (World Log))
channels = ("telegram", telegram_channel processor 1 transport) ∷ []

is_telegram : get_channel "telegram" channels ≡ ok (telegram_channel processor 1 transport)
unfolding get_channel get
is_telegram = refl

abbrev addressed : Envelope
addressed = record first_letter {
  sender = record first_letter.sender {
    external_id = text "telegram_42";
    raw_external_id = some (number (pos 42));
  };
}

sent_by : address_sender unary false "" "telegram" first_letter seen ≡ (ok addressed, seen)
unfolding address_sender add_channel_prefix int_text
sent_by = refl

marked : has_key update_key seen.processed_keys ≡ true
unfolding has_key
marked = refl

handle_channel_payload-repeated_example :
    handle_channel_payload unary false "" channels "telegram" "bot" update seen
    ≡ (ok (some (record { status_code = 200; retry_after = none })), moved seen true [])
handle_channel_payload-repeated_example =
    handle_channel_payload-repeated processor unary false "" channels "telegram" "bot" 1 transport
      update arrived arrived (str "bot") update_key first_letter addressed seen seen seen
      named_update raw_update from_bot is_telegram built sent_by refl refl marked
