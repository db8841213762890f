-- ===== src/Examples/DeltaChats.antt =====
-- The theorems on the Delta Chat channel at one configured account.
use delta_gateway_chat_woot.Base.{pos, String, false, List, [], ◌∷◌, none, ◌≡◌, refl}
use delta_gateway_chat_woot.Base.Dict
use delta_gateway_chat_woot.Base.Dict.{Dict}
use delta_gateway_chat_woot.Errors.{ok}
use delta_gateway_chat_woot.Models.{Envelope, text}
use delta_gateway_chat_woot.Values.{Value, str, int, arr, nil, cons, obj_of, dict_of}
use delta_gateway_chat_woot.DeltaChat.Routing.{
  AccountConfig, route_of, configured, connector_of_inbox, new_routing, get_route_by_connector_id,
  get_route_by_inbox_id,
}
use delta_gateway_chat_woot.DeltaChat.Routing.Inboxes.{get_route_by_inbox_id-route}
use delta_gateway_chat_woot.DeltaChat.Attachments.{Files}
use delta_gateway_chat_woot.DeltaChat.Processor.{Processor}
use delta_gateway_chat_woot.Examples.{Log, pgmq, json, unary, twelve_zeros}

abbrev pub account : AccountConfig
account = record {
  connector_id = "dc";
  address = "gate@example.org";
  password = "";
  dcaccount_url = none;
  display_name = none;
  avatar_path = none;
  bridge_url = none;
  cw_account_id = "3";
  cw_inbox_id = "8";
  storage_dir = none;
}

abbrev pub accounts : List AccountConfig
accounts = account ∷ []

pub inbox_route : get_route_by_inbox_id (new_routing accounts) "8" ≡ ok (route_of account)
unfolding get_route_by_inbox_id new_routing configured connector_of_inbox get_route_by_connector_id
    Dict.put Dict.get
inbox_route = refl

get_route_by_inbox_id-route_example :
    ((route_of account).cw_inbox_id ≡ "8")
    × (get_route_by_connector_id (new_routing accounts) "dc" ≡ ok (route_of account))
get_route_by_inbox_id-route_example =
    get_route_by_inbox_id-route accounts "8" (route_of account) inbox_route

abbrev pub no_files : Files
no_files = record {
  exists = λ p. false;
  size = λ p. 0;
  name = λ p. p;
  suffix = λ p. "";
  guess_type = λ p. none;
  encoded = λ p. "";
}

abbrev pub processor : Processor Log
processor = record {
  pg = pgmq;
  json = json;
  carrier = [];
  hash = twelve_zeros;
  uuid = unary;
  now = 0;
  routing = new_routing accounts;
  files = no_files;
  channel_upload_max_mb = 20;
  incoming_queue_name = "incoming";
  outgoing_queue_name = "outgoing";
}

abbrev pub mail : Value
mail = dict_of (
    ("connector_id", str "dc")
    ∷ ("sender_address", str "ann@example.org")
    ∷ ("message_id", str "1")
    ∷ ("chat_id", str "9")
    ∷ ("text", str "hello")
    ∷ [])

-- the first actor id that is drawn
abbrev pub actor : String
actor = "delta_chat_"

-- a webhook for the contact with the identifier
abbrev pub reply_to : String → Value
reply_to identifier = dict_of (
    ("inbox", dict_of (("id", int (pos 8)) ∷ []))
    ∷ (
      "conversation",
      dict_of (
          ("meta", dict_of (("sender", dict_of (("identifier", str identifier) ∷ [])) ∷ []))
          ∷ ("messages", arr (cons (dict_of (("id", int (pos 77)) ∷ [])) nil))
          ∷ []),
    )
    ∷ [])

abbrev pub reply_for : String → Envelope
reply_for identifier = record {
  idem_key = "chatwoot->delta_chat:dc:000000000000:000000000000:000000000000";
  channel = "delta_chat";
  from = "chatwoot";
  to = "delta_chat";
  connector_id = "dc";
  cw_inbox_id = "8";
  message_id = "77";
  cw_account_id = "3";
  sender = record {
    external_id = text identifier;
    raw_external_id = none;
    name = none;
    nickname = none;
  };
  payload = obj_of (("text", str "") ∷ ("attachments", arr nil) ∷ []);
  ts = 0;
}
