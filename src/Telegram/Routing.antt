-- ===== src/Telegram/Routing.antt =====
-- channels/telegram_channel/tg_routing.py and the configuration of plugin_settings.py.
pub mod Laws
use delta_gateway_chat_woot.Base.{String, List, [], ◌∷◌, Option, none, some}
use delta_gateway_chat_woot.Base.Dict
use delta_gateway_chat_woot.Base.Dict.{Dict}
use delta_gateway_chat_woot.Errors.{Exc, value_error, key_error, Result, ok, err, ◌>>=ᵣ◌}

pub record BotConfig : Type 0 where
  pub connector_id : String
  pub bot_token : String
  pub cw_account_id : String
  pub cw_inbox_id : String

pub record Routing : Type 0 where
  pub cw_accounts : Dict String
  pub inboxes : Dict String
  pub connectors : Dict String
  pub bot_tokens : Dict String

-- The two routes are dictionaries of texts.
pub record Route : Type 0 where
  pub connector_id : String
  pub cw_account_id : String
  pub cw_inbox_id : String
  pub bot_token : String

pub record InboxRoute : Type 0 where
  pub connector_id : String
  pub cw_account_id : String
  pub bot_token : String

abbrev pub no_routes : Routing
no_routes = record { cw_accounts = []; inboxes = []; connectors = []; bot_tokens = [] }

-- one turn of the constructor's loop
unfoldable pub add_config : BotConfig → Routing → Routing
add_config cfg r = record {
  cw_accounts = Dict.put cfg.connector_id cfg.cw_account_id r.cw_accounts;
  inboxes = Dict.put cfg.connector_id cfg.cw_inbox_id r.inboxes;
  connectors = Dict.put cfg.cw_inbox_id cfg.connector_id r.connectors;
  bot_tokens = Dict.put cfg.connector_id cfg.bot_token r.bot_tokens;
}

unfoldable pub add_configs : List BotConfig → Routing → Routing
add_configs [] r = r
add_configs (cfg ∷ cfgs) r = add_configs cfgs (add_config cfg r)

unfoldable pub new_routing : List BotConfig → Routing
new_routing cfgs = add_configs cfgs no_routes

-- str(d.get(k))
unfoldable pub text_at : String → Dict String → String
text_at k d = elim (Dict.get k d) [ none ↦ "None" | some v ↦ v ]

-- d[k]
unfoldable pub item : String → Dict String → Result String
item k d = elim (Dict.get k d) [ none ↦ err key_error | some v ↦ ok v ]

unfoldable pub get_cw_account : Routing → String → Result String
get_cw_account r connector_id = elim (Dict.get connector_id r.cw_accounts) [
  | none ↦ err value_error
  | some a ↦ ok a
]

unfoldable pub get_route_by_connector_id : Routing → String → Result Route
get_route_by_connector_id r connector_id = get_cw_account r connector_id >>=ᵣ λ account.
    ok (record {
      connector_id = connector_id;
      cw_account_id = account;
      cw_inbox_id = text_at connector_id r.inboxes;
      bot_token = text_at connector_id r.bot_tokens;
    })

unfoldable pub get_route_by_inbox_id : Routing → String → Result InboxRoute
get_route_by_inbox_id r inbox_id = item inbox_id r.connectors >>=ᵣ λ connector_id.
    get_cw_account r connector_id >>=ᵣ λ account. item connector_id r.bot_tokens >>=ᵣ λ token.
    ok (record { connector_id = connector_id; cw_account_id = account; bot_token = token })
