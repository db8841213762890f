-- ===== src/DeltaChat/Processor.antt =====
-- channels/delta_chat_channel/dc_message_processor.py, and the first step of dc_transport.py, which
-- finds the address that a message goes to.
use delta_gateway_chat_woot.Base.{
  ℕ, String, str_eq, [], ◌∷◌, Option, none, some, map, if◌then◌else◌,
}
use delta_gateway_chat_woot.Base.Dict.{Dict}
use delta_gateway_chat_woot.Errors.{value_error, Result, ok, err, ◌>>=ᵣ◌}
use delta_gateway_chat_woot.Exec.{Exec, ◌>>=◌, pure, lift}
use delta_gateway_chat_woot.Envelope.{build_idempotency_key}
use delta_gateway_chat_woot.Models.{
  Envelope, ExternalId, text, id_text, id_truthy, optional_text, attachment_value,
}
use delta_gateway_chat_woot.Values.{
  Value, null, bool, str, arr, nil, arr_of, obj_of, truthy, or_value, get_value, index, first,
  iterate,
}
use delta_gateway_chat_woot.Values.Text.{text_of}
use delta_gateway_chat_woot.World.{World}
use delta_gateway_chat_woot.Queue.{Pgmq, Json}
use delta_gateway_chat_woot.Publish.{publish_message}
use delta_gateway_chat_woot.Identity.{get_or_create_actor_id, resolve_external_id}
use delta_gateway_chat_woot.Telegram.Extract.{extract_chatwoot_attachments}
use delta_gateway_chat_woot.DeltaChat.Routing.{
  Routing, Route, get_default_connector_id, get_connector_id_by_account_id,
  get_route_by_connector_id, get_route_by_inbox_id,
}
use delta_gateway_chat_woot.DeltaChat.Attachments.{
  Files, prepare_delta_chat_to_chatwoot_attachments,
}

-- the settings and objects that the processor holds
pub record Processor (Q : Type 0) : Type 0 where
  pub pg : Pgmq Q
  pub json : Json
  pub carrier : Dict String
  pub hash : String → String
  pub uuid : ℕ → String
  pub now : ℕ
  pub routing : Routing
  pub files : Files
  pub channel_upload_max_mb : ℕ
  pub incoming_queue_name : String
  pub outgoing_queue_name : String

required : Value → Result String
required null = err value_error
required (str s) = if str_eq s "" then err value_error else ok s
required v = ok (text_of v)

unfoldable pub required_str : Value → String → Result String
unfolding required
required_str raw_data key = get_value key raw_data >>=ᵣ λ v. required v

-- The connector for an account id, or the default one for None.
account_connector : Routing → Value → Result String
account_connector r null = get_default_connector_id r
account_connector r v = get_connector_id_by_account_id r v

unfoldable pub connector_of : Routing → Value → Result String
unfolding account_connector
connector_of r raw_data = get_value "account_id" raw_data >>=ᵣ λ account_id.
    get_value "connector_id" raw_data >>=ᵣ λ connector_id.
    if truthy connector_id then ok (text_of connector_id) else account_connector r account_id

module _ {Q : Type 0} (p : Processor Q) where
  -- What stands behind the actor id: the rest of build_channel_message.
  unfoldable pub channel_envelope : Value → Route → String → String → Result (String × Envelope)
  channel_envelope raw_data route external_id actor_id =
      required_str raw_data "message_id" >>=ᵣ λ message_id.
      required_str raw_data "chat_id" >>=ᵣ λ chat_id. get_value "text" raw_data >>=ᵣ λ text_value.
      get_value "attachments" raw_data >>=ᵣ λ given. iterate (or_value given (arr nil)) >>=ᵣ λ each.
      prepare_delta_chat_to_chatwoot_attachments p.files p.channel_upload_max_mb each
      >>=ᵣ λ attachments. get_value "account_id" raw_data >>=ᵣ λ account_id.
          build_idempotency_key p.hash "delta_chat->chatwoot" route.connector_id (text external_id)
            message_id
            (("account_id", text_of (or_value account_id (str ""))) ∷ ("chat_id", chat_id) ∷ [])
          >>=ᵣ λ idempotency_key. get_value "sender_name" raw_data >>=ᵣ λ sender_name.
              optional_text sender_name >>=ᵣ λ name. get_value "is_group" raw_data >>=ᵣ λ is_group.
              get_value "view_type" raw_data >>=ᵣ λ view_type.
              get_value "viewtype" raw_data >>=ᵣ λ viewtype. ok (
                idempotency_key,
                record {
                  idem_key = idempotency_key;
                  channel = "delta_chat";
                  from = "delta_chat";
                  to = "chatwoot";
                  connector_id = route.connector_id;
                  cw_inbox_id = route.cw_inbox_id;
                  message_id = message_id;
                  cw_account_id = route.cw_account_id;
                  sender = record {
                    external_id = text actor_id;
                    raw_external_id = some (text external_id);
                    name = name;
                    nickname = name;
                  };
                  payload = obj_of (
                      ("text", str (text_of (or_value text_value (str ""))))
                      ∷ ("attachments", arr (arr_of (map attachment_value attachments)))
                      ∷ ("chat_id", str chat_id)
                      ∷ ("account_id", account_id)
                      ∷ ("is_group", bool (truthy is_group))
                      ∷ ("view_type", or_value view_type viewtype)
                      ∷ []);
                  ts = p.now;
                },
              )

  unfoldable pub build_channel_message : Value → Exec (World Q) (String × Envelope)
  build_channel_message raw_data = do
    connector_id ← lift (connector_of p.routing raw_data)
    route ← lift (get_route_by_connector_id p.routing connector_id)
    external_id ← lift (required_str raw_data "sender_address")
    actor_id ← get_or_create_actor_id p.uuid "delta_chat" external_id
    lift (channel_envelope raw_data route external_id actor_id)

  unfoldable pub publish_channel_message : String → Envelope → Value → Exec (World Q) (Unit {0})
  publish_channel_message idempotency_key envelope raw_data =
      publish_message p.pg p.json p.carrier p.incoming_queue_name idempotency_key envelope

  unfoldable pub chatwoot_envelope : Value → String → Result (String × Envelope)
  chatwoot_envelope raw_data cw_account_id = index "inbox" raw_data >>=ᵣ λ inbox.
      index "id" inbox >>=ᵣ λ inbox_id.
      get_route_by_inbox_id p.routing (text_of inbox_id) >>=ᵣ λ route.
      index "conversation" raw_data >>=ᵣ λ conversation. index "meta" conversation >>=ᵣ λ meta.
      index "sender" meta >>=ᵣ λ sender. index "identifier" sender >>=ᵣ λ identifier.
      index "messages" conversation >>=ᵣ λ messages. first messages >>=ᵣ λ message.
      index "id" message >>=ᵣ λ message_id.
      extract_chatwoot_attachments raw_data >>=ᵣ λ attachments.
      build_idempotency_key p.hash "chatwoot->delta_chat" route.connector_id
        (text (text_of identifier)) (text_of message_id) []
      >>=ᵣ λ idempotency_key. get_value "content" raw_data >>=ᵣ λ content. ok (
        idempotency_key,
        record {
          idem_key = idempotency_key;
          channel = "delta_chat";
          from = "chatwoot";
          to = "delta_chat";
          connector_id = route.connector_id;
          cw_inbox_id = text_of inbox_id;
          message_id = text_of message_id;
          cw_account_id = cw_account_id;
          sender = record {
            external_id = text (text_of identifier);
            raw_external_id = none;
            name = none;
            nickname = none;
          };
          payload = obj_of (
              ("text", str (text_of (or_value content (str ""))))
              ∷ ("attachments", arr (arr_of attachments))
              ∷ []);
          ts = p.now;
        },
      )

  unfoldable pub publish_chatwoot_message : Value → String → Exec (World Q) (Unit {0})
  publish_chatwoot_message raw_data cw_account_id = do
    parsed ← lift (chatwoot_envelope raw_data cw_account_id)
    publish_message p.pg p.json p.carrier p.outgoing_queue_name parsed.0 parsed.1

-- str(sender.raw_external_id or await resolve_external_id("delta_chat", actor_id))
unfoldable pub address_from : {Q : Type 0} → Option ExternalId → String → Exec (World Q) String
address_from none actor_id = resolve_external_id "delta_chat" actor_id
address_from (some raw) actor_id =
    if id_truthy raw then pure (id_text raw) else resolve_external_id "delta_chat" actor_id

unfoldable pub external_address : {Q : Type 0} → Envelope → Exec (World Q) String
external_address envelope =
    address_from envelope.sender.raw_external_id (id_text envelope.sender.external_id)
