-- ===== src/Webhooks.antt =====
-- app/services/handlers.py and infrastructure/endpoints.py: what a webhook does and answers.
pub mod Routing
pub mod Answers
use delta_gateway_chat_woot.Base.{
  ℕ, ℤ, String, str_eq, starts_with, Bool, true, false, ◌&&◌, List, [], ◌∷◌, Option, none, some,
  if◌then◌else◌,
}
use delta_gateway_chat_woot.Base.Dict.{Dict}
use delta_gateway_chat_woot.Errors.{
  Exc, connector_not_found_error, wrong_update_type_error, idempotency_key_already_processed_error,
  transient_error, http_exception, type_error, other, Result, ok, err, ◌>>=ᵣ◌,
}
use delta_gateway_chat_woot.Exec.{Exec, ◌>>=◌, ◌>>◌, pure, raise, lift, attempt}
use delta_gateway_chat_woot.Values.{
  Value, null, bool, int, str, arr, obj, Members, find, set, index, get_value, or_value, is_str,
}
use delta_gateway_chat_woot.Values.Text.{text_of}
use delta_gateway_chat_woot.Envelope.{channel_prefix, strip_channel_prefix}
use delta_gateway_chat_woot.World.{World, nothing, translating, on_connection}
use delta_gateway_chat_woot.Alias.{resolve_alias}
use delta_gateway_chat_woot.Registry.{Channel, get_channel, channel_names}
use delta_gateway_chat_woot.Orchestrator.{process}

-- a response with its Retry-After header
pub record Response : Type 0 where
  pub status_code : ℕ
  pub retry_after : Option ℤ

-- The response for an exception, an HTTPException, or `none` for one that is raised again.
unfoldable pub handle_exceptions : Exc → Result (Option Response)
handle_exceptions connector_not_found_error = err (http_exception 404)
handle_exceptions wrong_update_type_error = err (http_exception 204)
handle_exceptions idempotency_key_already_processed_error =
    ok (some (record { status_code = 200; retry_after = none }))
handle_exceptions (transient_error limit delay) =
    ok (some (record { status_code = 503; retry_after = some delay }))
handle_exceptions _ = ok none

-- except Exception as e: if response := _handle_exceptions(e, ...): return response; raise
unfoldable pub answering : {S : Type 0} → Exec S (Unit {0}) → Exec S (Option Response)
answering m = attempt (m >> pure none) (λ e. do
  response ← lift (handle_exceptions e)
  elim response [ some r ↦ pure (some r) | none ↦ raise e ])

-- v[k] = x
unfoldable pub assign : String → Value → Value → Result Value
assign k x (obj m) = ok (obj (set k x m))
assign k x _ = err type_error

-- payload["conversation"]["meta"]["sender"]["identifier"]
unfoldable pub identifier_of : Value → Result Value
identifier_of payload = index "conversation" payload >>=ᵣ λ c.
    index "meta" c >>=ᵣ λ m. index "sender" m >>=ᵣ λ s. index "identifier" s

unfoldable pub set_identifier : Value → Value → Result Value
set_identifier x payload = index "conversation" payload >>=ᵣ λ c. index "meta" c >>=ᵣ λ m.
    index "sender" m >>=ᵣ λ s. assign "identifier" x s >>=ᵣ λ s'.
    assign "sender" s' m >>=ᵣ λ m'. assign "meta" m' c >>=ᵣ λ c'. assign "conversation" c' payload

-- The first registered name whose prefix the identifier has.
unfoldable pub prefixed_channel : String → List String → Option String
prefixed_channel identifier [] = none
prefixed_channel identifier (name ∷ names) =
    if starts_with identifier (channel_prefix name)
    then some name
    else prefixed_channel identifier names

unfoldable pub resolve_outgoing_channel : Value → String → List String → String
resolve_outgoing_channel (str s) url_channel names = elim (prefixed_channel s names) [
  | none ↦ url_channel
  | some name ↦ name
]
resolve_outgoing_channel _ url_channel names = url_channel

-- isinstance(identifier, str) and startswith: only then is anything stripped.
unfoldable pub strip_value : Value → String → Value
strip_value (str s) channel = str (strip_channel_prefix s channel)
strip_value v channel = v

-- The channel that an outgoing message goes to, and the payload with the identifier for it.
identity_channel : Value → List String → Option String
identity_channel (str s) names = prefixed_channel s names
identity_channel _ names = none

-- payload.get("message_type") == "outgoing"
unfoldable pub is_outgoing : Value → Bool
is_outgoing (str s) = str_eq s "outgoing"
is_outgoing _ = false

-- `if response := await handle(...): return response`, and else 204
no_content : Option Response → Response
no_content none = record { status_code = 204; retry_after = none }
no_content (some r) = r

-- str(raw_data.get("channel") or "delta_chat")
channel_field : Value → Result String
channel_field raw_data =
    get_value "channel" raw_data >>=ᵣ λ c. ok (text_of (or_value c (str "delta_chat")))

module _ {Q : Type 0} where
  -- The parameter `$1` is NULL for None, and asyncpg refuses what is no text.
  resolve_identifier : Value → Exec (World Q) (Option String)
  resolve_identifier (str s) = resolve_alias s
  resolve_identifier null =
      translating ("operation" ∷ "alias_id" ∷ []) (on_connection (λ w. (none, w)))
  resolve_identifier _ = raise (other "DataError")

  unfoldable pub direct : Bool → String → List String → Value → Exec (World Q) (String × Value)
  unfolding identity_channel resolve_identifier
  direct false channel names payload = do
    identifier ← lift (identifier_of payload)
    let target = resolve_outgoing_channel identifier channel names
    payload' ← lift (set_identifier (strip_value identifier target) payload)
    pure (target, payload')
  direct true channel names payload = do
    identifier ← lift (identifier_of payload)
    elim (identity_channel identifier names) [
      | some name ↦ pure (name, payload)
      | none ↦ do
        real_id ← resolve_identifier identifier
        elim real_id [
          | none ↦ raise connector_not_found_error
          | some r ↦ do payload' ← lift (set_identifier (str r) payload); pure (channel, payload')
        ]
    ]

  unfoldable pub handle_chatwoot_payload :
      Bool → Dict (Channel (World Q)) → String → String → Value → Exec (World Q) (Option Response)
  unfolding is_outgoing
  handle_chatwoot_payload anonymize_users channels channel cw_account_id payload = do
    message_type ← lift (get_value "message_type" payload)
    if is_outgoing message_type
        then answering (do
          directed ← direct anonymize_users channel (channel_names channels) payload
          target ← lift (get_channel directed.0 channels)
          target.publish_chatwoot_message directed.1 cw_account_id)
        else pure none

  unfoldable pub handle_channel_payload :
      (ℕ → String)
      → Bool
      → String
      → Dict (Channel (World Q))
      → String
      → String
      → Value
      → Exec (World Q) (Option Response)
  handle_channel_payload uuid anonymize_users username channels channel connector_id payload = do
    named ← lift (assign "channel" (str channel) payload)
    prepared ← lift (assign "connector_id" (str connector_id) named)
    answering (process uuid anonymize_users username channels channel prepared)

  unfoldable pub to_chatwoot :
      (ℕ → String)
      → Bool
      → String
      → Dict (Channel (World Q))
      → String
      → String
      → Value
      → Exec (World Q) Response
  unfolding no_content
  to_chatwoot uuid anonymize_users username channels channel connector_id raw_data = do
    response ←
        handle_channel_payload uuid anonymize_users username channels channel connector_id raw_data
    pure (no_content response)

  unfoldable pub from_chatwoot :
      Bool → Dict (Channel (World Q)) → String → String → Value → Exec (World Q) Response
  unfolding no_content
  from_chatwoot anonymize_users channels channel cw_account_id raw_data = do
    response ← handle_chatwoot_payload anonymize_users channels channel cw_account_id raw_data
    pure (no_content response)

  unfoldable pub inbound_message :
      (ℕ → String) → Bool → String → Dict (Channel (World Q)) → Value → Exec (World Q) Response
  unfolding channel_field no_content
  inbound_message uuid anonymize_users username channels raw_data = do
    channel ← lift (channel_field raw_data)
    connector_id ← lift (index "connector_id" raw_data)
    to_chatwoot uuid anonymize_users username channels channel (text_of connector_id) raw_data

  unfoldable pub outbound_message :
      Bool → Dict (Channel (World Q)) → Value → Exec (World Q) Response
  unfolding channel_field no_content
  outbound_message anonymize_users channels raw_data = do
    channel ← lift (channel_field raw_data)
    cw_account_id ← lift (index "cw_account_id" raw_data)
    from_chatwoot anonymize_users channels channel (text_of cw_account_id) raw_data
