-- ===== src/Examples/Bots.antt =====
-- The theorems on the Telegram channel at two configured bots.
use delta_gateway_chat_woot.Base.{String, pos, int_text, [], ◌∷◌, ◌≡◌, refl}
use delta_gateway_chat_woot.Errors.{ok, Gives}
use delta_gateway_chat_woot.Values.{
  Value, str, int, arr, nil, cons, iterate, first, get_default, dict_of, find, index,
}
use delta_gateway_chat_woot.Models.{Envelope, external_id_of}
use delta_gateway_chat_woot.Envelope.{build_idempotency_key}
use delta_gateway_chat_woot.Base.Dict
use delta_gateway_chat_woot.Telegram.Extract.{extract_chatwoot_attachments, chatwoot_entries}
use delta_gateway_chat_woot.Values.Text.{text_of}
use delta_gateway_chat_woot.Telegram.Routing.{
  BotConfig, item, add_configs, add_config, get_cw_account, new_routing, get_route_by_connector_id,
  get_route_by_inbox_id,
}
use delta_gateway_chat_woot.Telegram.Routing.Laws.{new_routing-returns}
use delta_gateway_chat_woot.Telegram.Factory.{parse_channel_request, parse_chatwoot_request}
use delta_gateway_chat_woot.Telegram.Factory.Routes.{
  IsRoutedBy, parse_channel_request-IsRoutedBy, parse_chatwoot_request-IsRoutedBy,
}
use delta_gateway_chat_woot.Examples.{twelve_zeros}

abbrev pub bot : BotConfig
bot = record {
  connector_id = "bot";
  bot_token = "1:abcdef";
  cw_account_id = "3";
  cw_inbox_id = "5";
}

abbrev pub other : BotConfig
other = record {
  connector_id = "other";
  bot_token = "2:xyz";
  cw_account_id = "4";
  cw_inbox_id = "6";
}

new_routing-returns_example :
    (get_route_by_connector_id (new_routing (bot ∷ other ∷ [])) "bot"
      ≡ ok (record {
        connector_id = "bot";
        cw_account_id = "3";
        cw_inbox_id = "5";
        bot_token = "1:abcdef";
      }))
    × (get_route_by_inbox_id (new_routing (bot ∷ other ∷ [])) "5"
        ≡ ok (record { connector_id = "bot"; cw_account_id = "3"; bot_token = "1:abcdef" }))
new_routing-returns_example = new_routing-returns bot [] (other ∷ []) ((refl, refl), tt)

abbrev pub message : Value
message = dict_of (
    ("message_id", int (pos 1))
    ∷ ("from", dict_of (("id", int (pos 42)) ∷ ("first_name", str "Ann") ∷ []))
    ∷ ("text", str "hello")
    ∷ [])

abbrev pub update : Value
update = dict_of (("message", message) ∷ ("connector_id", str "bot") ∷ [])

parse_channel_request-IsRoutedBy_example :
    Gives
      (λ p. IsRoutedBy bot p × (p.1.cw_account_id ≡ "3"))
      (parse_channel_request twelve_zeros 0
        (new_routing (bot ∷ other ∷ []))
        update
        "bot"
        "telegram")
parse_channel_request-IsRoutedBy_example =
    parse_channel_request-IsRoutedBy twelve_zeros 0 bot [] (other ∷ []) ((refl, refl), tt)
      "telegram" update

abbrev inbox : Value
inbox = dict_of (("id", int (pos 5)) ∷ [])

abbrev conversation : Value
conversation = dict_of (
    ("meta", dict_of (("sender", dict_of (("identifier", str "42") ∷ [])) ∷ []))
    ∷ ("messages", arr (cons (dict_of (("id", int (pos 77)) ∷ [])) nil))
    ∷ [])

abbrev hook : Value
hook = dict_of (("inbox", inbox) ∷ ("conversation", conversation) ∷ ("content", str "hello") ∷ [])

in_inbox : index "inbox" hook ≡ ok inbox
unfolding index find
in_inbox = refl

inbox_named : index "id" inbox ≡ ok (int (pos 5))
unfolding index find
inbox_named = refl

five : text_of (int (pos 5)) ≡ "5"
unfolding text_of int_text
five = refl

-- The webhook becomes an envelope.
routed :
    (p : String × Envelope) × (parse_chatwoot_request twelve_zeros 0
        (new_routing (bot ∷ other ∷ []))
        hook
        "9"
        "telegram"
      ≡ ok p)
unfolding parse_chatwoot_request new_routing get_route_by_inbox_id extract_chatwoot_attachments
    index find get_default text_of int_text item Dict.get add_configs add_config Dict.put
    get_cw_account iterate chatwoot_entries external_id_of first build_idempotency_key
routed = (_, refl)

parse_chatwoot_request-IsRoutedBy_example :
    Gives
      (IsRoutedBy bot)
      (parse_chatwoot_request twelve_zeros 0 (new_routing (bot ∷ other ∷ [])) hook "9" "telegram")
parse_chatwoot_request-IsRoutedBy_example =
    parse_chatwoot_request-IsRoutedBy twelve_zeros 0 bot [] (other ∷ []) ((refl, refl), tt)
      "telegram" hook inbox (int (pos 5)) "9" in_inbox inbox_named five
