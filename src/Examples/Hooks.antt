-- ===== src/Examples/Hooks.antt =====
-- The theorems on webhooks, the orchestrator and the registry at sample payloads.
use delta_gateway_chat_woot.Base.{
  String, starts_with, true, false, List, [], ◌∷◌, some, All, ◌≡◌, refl,
}
use delta_gateway_chat_woot.Errors.{ok, Gives}
use delta_gateway_chat_woot.Models.{Envelope, text, model_dump}
use delta_gateway_chat_woot.Values.{Value, str, dict_of, find, index}
use delta_gateway_chat_woot.World.{translating, on_connection, get_pg_pool, statement}
use delta_gateway_chat_woot.Envelope.{channel_prefix, add_channel_prefix}
use delta_gateway_chat_woot.Alias.{upsert, upsert_alias, get_or_create_alias}
use delta_gateway_chat_woot.Worker.Delivery.{read_payload}
use delta_gateway_chat_woot.Orchestrator.{address_sender}
use delta_gateway_chat_woot.Orchestrator.Prefixes.{IsSeenAs, address_sender-IsSeenAs}
use delta_gateway_chat_woot.Webhooks.{direct, identifier_of}
use delta_gateway_chat_woot.Webhooks.Routing.{direct-returns}
use delta_gateway_chat_woot.Examples.{calm, letter, unary}

abbrev names : List String
names = "signal" ∷ "telegram" ∷ []

abbrev reply : Value
reply = dict_of (
    ("message_type", str "outgoing")
    ∷ (
      "conversation",
      dict_of (
          ("meta", dict_of (("sender", dict_of (("identifier", str "telegram_42") ∷ [])) ∷ []))
          ∷ []),
    )
    ∷ [])

identified : identifier_of reply ≡ ok (str (add_channel_prefix "42" "telegram"))
unfolding identifier_of index find add_channel_prefix
identified = refl

only :
    All
      (λ n.
        starts_with (add_channel_prefix "42" "telegram") (channel_prefix n) ≡ true → n ≡ "telegram")
      names
unfolding add_channel_prefix starts_with
only = (λ h. cc h, (λ h. refl, tt))

direct-returns_example :
    (p : Value) × (direct false "signal" names reply calm ≡ (ok ("telegram", p), calm))
    × (identifier_of p ≡ ok (str "42"))
direct-returns_example =
    direct-returns "42" "telegram" "signal" names reply calm identified refl only

abbrev addressed : Envelope
addressed = record letter {
  sender = record letter.sender {
    external_id = text "";
    raw_external_id = some (text "42");
    name = some "Quiet Otter";
  };
}

is_addressed : (address_sender unary true "Quiet Otter" "telegram" letter calm).0 ≡ ok addressed
unfolding address_sender get_or_create_alias translating on_connection get_pg_pool statement
    upsert_alias upsert
is_addressed = refl

address_sender-IsSeenAs_example :
    (a : String) × ((get_or_create_alias unary "telegram" "42" calm).0 ≡ ok a)
    × Gives (IsSeenAs a "Quiet Otter") (read_payload (model_dump addressed))
address_sender-IsSeenAs_example =
    address_sender-IsSeenAs unary "Quiet Otter" "telegram" letter addressed calm is_addressed
