-- ===== src/Examples/DeltaReplies.antt =====
-- The theorems on replies of the Delta Chat channel.
use delta_gateway_chat_woot.Base.{
  int_text, String, starts_with, drop_prefix, true, false, List, [], ◌∷◌, none, some, All, ◌≡◌,
  refl,
}
use delta_gateway_chat_woot.Base.Dict
use delta_gateway_chat_woot.Base.Dict.{Dict}
use delta_gateway_chat_woot.Errors.{ok, err, value_error}
use delta_gateway_chat_woot.Models.{Envelope, text, optional_text}
use delta_gateway_chat_woot.Values.{
  null, bool, str, arr, nil, obj_of, find, set, truthy, or_value, index, first, iterate, get_value,
  get_default,
}
use delta_gateway_chat_woot.Values.Text.{text_of}
use delta_gateway_chat_woot.World.{get_pg_pool, statement}
use delta_gateway_chat_woot.Envelope.{
  strip_channel_prefix, channel_prefix, add_channel_prefix, build_idempotency_key, extra_hash,
}
use delta_gateway_chat_woot.Identity.{
  select_actor, create_actor_id, draw, insert_actor, actor_id_of, external_id_of as address_of,
  get_or_create_actor_id,
}
use delta_gateway_chat_woot.Identity.RoundTrip.{IsConsistent, IsUnused}
use delta_gateway_chat_woot.Webhooks.{
  identifier_of, direct, resolve_outgoing_channel, prefixed_channel, set_identifier, assign,
  strip_value,
}
use delta_gateway_chat_woot.Telegram.Extract.{extract_chatwoot_attachments, chatwoot_entries}
use delta_gateway_chat_woot.DeltaChat.Routing.{
  route_of, configured, new_routing, get_route_by_connector_id,
}
use delta_gateway_chat_woot.DeltaChat.Attachments.{prepare_delta_chat_to_chatwoot_attachments}
use delta_gateway_chat_woot.DeltaChat.Processor.{
  required_str, connector_of, build_channel_message, channel_envelope, chatwoot_envelope,
  external_address,
}
use delta_gateway_chat_woot.DeltaChat.Replies.{
  build_channel_message-returns, unanonymized_reply-lost,
}
use delta_gateway_chat_woot.Examples.{calm, unary, twelve_zeros}
use delta_gateway_chat_woot.Examples.DeltaChats.{
  account, accounts, processor, mail, actor, reply_to, reply_for, inbox_route,
}

is_connector : connector_of processor.routing mail ≡ ok "dc"
unfolding connector_of get_value get_default find truthy text_of
is_connector = refl

is_route : get_route_by_connector_id (new_routing accounts) "dc" ≡ ok (route_of account)
unfolding get_route_by_connector_id new_routing configured Dict.put Dict.get
is_route = refl

is_address : required_str mail "sender_address" ≡ ok "ann@example.org"
unfolding required_str get_value get_default find text_of
is_address = refl

nobody : IsConsistent "delta_chat" []
unfolding actor_id_of
nobody x a h = cc h

unused : (actor_id : String) → IsUnused "delta_chat" actor_id []
unfolding address_of
unused actor_id = refl

abbrev incoming : Envelope
incoming = record {
  idem_key = "delta_chat->chatwoot:dc:000000000000:000000000000:000000000000";
  channel = "delta_chat";
  from = "delta_chat";
  to = "chatwoot";
  connector_id = "dc";
  cw_inbox_id = "8";
  message_id = "1";
  cw_account_id = "3";
  sender = record {
    external_id = text actor;
    raw_external_id = some (text "ann@example.org");
    name = none;
    nickname = none;
  };
  payload = obj_of (
      ("text", str "hello")
      ∷ ("attachments", arr nil)
      ∷ ("chat_id", str "9")
      ∷ ("account_id", null)
      ∷ ("is_group", bool false)
      ∷ ("view_type", null)
      ∷ []);
  ts = 0;
}

enveloped :
    channel_envelope processor mail (route_of account) "ann@example.org" actor
    ≡ ok (incoming.idem_key, incoming)
unfolding channel_envelope required_str get_value get_default find text_of or_value truthy iterate
    prepare_delta_chat_to_chatwoot_attachments build_idempotency_key extra_hash optional_text
enveloped = refl

got : (get_or_create_actor_id unary "delta_chat" "ann@example.org" calm).0 ≡ ok actor
unfolding get_or_create_actor_id get_pg_pool statement select_actor actor_id_of create_actor_id draw
    insert_actor
got = refl

built : (build_channel_message processor mail calm).0 ≡ ok (incoming.idem_key, incoming)
unfolding build_channel_message
built = rw is_connector (rw is_route (rw is_address (rw got enveloped)))

named : (identifier : String) → identifier_of (reply_to identifier) ≡ ok (str identifier)
unfolding identifier_of index find
named identifier = refl

answered :
    (identifier : String)
    → build_idempotency_key twelve_zeros "chatwoot->delta_chat" "dc" (text identifier) "77" []
      ≡ ok (reply_for identifier).idem_key
    → chatwoot_envelope processor (reply_to identifier) "3"
      ≡ ok ((reply_for identifier).idem_key, reply_for identifier)
unfolding chatwoot_envelope index find text_of int_text first iterate get_value get_default or_value
    truthy extract_chatwoot_attachments chatwoot_entries
answered identifier h = rw inbox_route (rw h refl)

key_for :
    build_idempotency_key twelve_zeros "chatwoot->delta_chat" "dc" (text actor) "77" []
    ≡ ok (reply_for actor).idem_key
unfolding build_idempotency_key extra_hash
key_for = refl

build_channel_message-returns_example :
    (external_address (reply_for actor) (build_channel_message processor mail calm).1).0
    ≡ ok "ann@example.org"
build_channel_message-returns_example =
    build_channel_message-returns processor mail (reply_to actor) "dc" "ann@example.org"
      incoming.idem_key "3" (reply_for actor).idem_key (route_of account) incoming (reply_for actor)
      calm refl nobody (unused _) is_connector is_route is_address built (named actor)
      (answered actor key_for)

abbrev names : List String
names = "telegram" ∷ "delta_chat" ∷ []

only :
    All
      (λ n.
        starts_with (add_channel_prefix "7f" "delta_chat") (channel_prefix n) ≡ true
        → n ≡ "delta_chat")
      names
unfolding add_channel_prefix starts_with
only = (λ h. cc h, (λ h. refl, tt))

key_for_rest :
    build_idempotency_key twelve_zeros "chatwoot->delta_chat" "dc" (text "7f") "77" []
    ≡ ok (reply_for "7f").idem_key
unfolding build_idempotency_key extra_hash
key_for_rest = refl

prefixed :
    identifier_of (reply_to "delta_chat_7f") ≡ ok (str (add_channel_prefix "7f" "delta_chat"))
unfolding identifier_of index find add_channel_prefix
prefixed = refl

directed :
    (direct false "telegram" names (reply_to "delta_chat_7f") calm).0
    ≡ ok ("delta_chat", reply_to "7f")
unfolding direct identifier_of index find resolve_outgoing_channel prefixed_channel starts_with
    set_identifier assign set strip_value strip_channel_prefix drop_prefix
directed = refl

unanonymized_reply-lost_example : (external_address (reply_for "7f") calm).0 ≡ err value_error
unanonymized_reply-lost_example =
    unanonymized_reply-lost processor "7f" "telegram" "delta_chat" "3" (reply_for "7f").idem_key
      names (reply_to "delta_chat_7f") (reply_to "7f") (reply_for "7f") calm refl prefixed refl only
      (unused "7f") directed (answered "7f" key_for_rest)
