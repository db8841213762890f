-- ===== src/Worker/Delivery.antt =====
-- app/workers/to_chatwoot.py and app/workers/from_chatwoot.py: the two workers' `_handle_message`.
-- The Chatwoot client's method is an argument, `deliver`; spans and logs are left out.
pub mod Rates
use delta_gateway_chat_woot.Base.{
  ℤ, pos, String, Bool, true, false, ◌||◌, List, [], ◌∷◌, Option, none, some, parse_int,
  if◌then◌else◌,
}
use delta_gateway_chat_woot.Base.Dict.{Dict}
use delta_gateway_chat_woot.Errors.{
  Exc, rate_limit_error, transient_after, value_error, type_error, Result, ok, err, ◌>>=ᵣ◌,
}
use delta_gateway_chat_woot.Exec.{Exec, ◌>>=◌, ◌>>◌, pure, raise, lift, attempt}
use delta_gateway_chat_woot.Models.{ChannelDeliveryResult}
use delta_gateway_chat_woot.Values.{
  Value, null, bool, int, str, arr, obj, nil, Members, truthy, or_value, get_value, get_default,
  index,
}
use delta_gateway_chat_woot.Values.Text.{text_of}
use delta_gateway_chat_woot.Registry.{Channel, get_channel}

-- int(v)
unfoldable pub int_of : Value → Result ℤ
int_of (int z) = ok z
int_of (bool true) = ok (pos 1)
int_of (bool false) = ok (pos 0)
int_of (str s) = elim (parse_int s) [ none ↦ err value_error | some z ↦ ok z ]
int_of _ = err type_error

-- len(v), of which only the TypeError matters
unfoldable pub sized : Value → Result Value
sized null = err type_error
sized (bool b) = err type_error
sized (int z) = err type_error
sized v = ok v

-- what _handle_message reads of the payload
pub record Delivery : Type 0 where
  pub end_user_id : Value
  pub name : Value
  pub message_text : Value
  pub attachments : Value
  pub cw_account_id : Value
  pub cw_inbox_id : Value

unfoldable pub read_payload : Value → Result Delivery
read_payload payload = index "channel" payload >>=ᵣ λ channel. index "sender" payload >>=ᵣ λ sender.
    index "external_id" sender >>=ᵣ λ end_user_id. get_value "name" sender >>=ᵣ λ name.
    index "payload" payload >>=ᵣ λ content. get_value "text" content >>=ᵣ λ text.
    get_default "attachments" (arr nil) content >>=ᵣ λ attachments.
    index "connector_id" payload >>=ᵣ λ connector_id.
    index "cw_account_id" payload >>=ᵣ λ cw_account_id.
    index "cw_inbox_id" payload >>=ᵣ λ cw_inbox_id. sized attachments >>=ᵣ λ attachments.
    ok (record {
      end_user_id = end_user_id;
      name = name;
      message_text = or_value text (str "");
      attachments = attachments;
      cw_account_id = cw_account_id;
      cw_inbox_id = cw_inbox_id;
    })

-- except RateLimitError as exc: raise TransientError
unfoldable pub rate_limited : Exc → Exc
rate_limited (rate_limit_error retry_after_seconds) = transient_after retry_after_seconds
rate_limited e = e

module _ {S : Type 0} where
  -- `deliver account_id end_user_id inbox_id content name attachments`
  unfoldable pub to_chatwoot_message :
      (ℤ → String → ℤ → Value → Value → Value → Exec S (Unit {0})) → Members → Exec S (Unit {0})
  to_chatwoot_message deliver payload = do
    d ← lift (read_payload (obj payload))
    if truthy d.message_text || truthy d.attachments
        then (do
          account_id ← lift (int_of d.cw_account_id)
          inbox_id ← lift (int_of d.cw_inbox_id)
          deliver account_id (text_of d.end_user_id) inbox_id d.message_text d.name
              (or_value d.attachments null))
        else pure tt

  unfoldable pub from_chatwoot_message : Dict (Channel S) → Members → Exec S (Unit {0})
  from_chatwoot_message channels payload = do
    name ← lift (get_value "channel" (obj payload))
    channel ← lift (get_channel (text_of name) channels)
    attempt (channel.send_to_user (obj payload) >> pure tt) (λ e. raise (rate_limited e))
