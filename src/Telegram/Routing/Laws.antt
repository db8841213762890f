-- ===== src/Telegram/Routing/Laws.antt =====
-- The two directions of Telegram's routes.
use delta_gateway_chat_woot.Base.{
  String, str_eq, eq_refl, false, List, [], ◌∷◌, ◌++◌, some, All, ◌≡◌, refl, arith,
}
use delta_gateway_chat_woot.Base.Dict
use delta_gateway_chat_woot.Base.Dict.{Dict, get-put}
use delta_gateway_chat_woot.Errors.{ok}
use delta_gateway_chat_woot.Telegram.Routing.{
  BotConfig, Routing, text_at, item, get_cw_account, no_routes, add_config, add_configs,
  new_routing, get_route_by_connector_id, get_route_by_inbox_id,
}

-- No later configuration has the connector or the inbox of `cfg`.
abbrev pub IsUnrepeated : BotConfig → List BotConfig → Type 0
IsUnrepeated cfg cfgs =
    All
      (λ c.
        (str_eq c.connector_id cfg.connector_id ≡ false)
        × (str_eq c.cw_inbox_id cfg.cw_inbox_id ≡ false))
      cfgs

-- What the four dictionaries hold for `cfg`.
record IsRouted (cfg : BotConfig) (r : Routing) : Type 0 where
  account : Dict.get cfg.connector_id r.cw_accounts ≡ some cfg.cw_account_id
  inbox : Dict.get cfg.connector_id r.inboxes ≡ some cfg.cw_inbox_id
  connector : Dict.get cfg.cw_inbox_id r.connectors ≡ some cfg.connector_id
  token : Dict.get cfg.connector_id r.bot_tokens ≡ some cfg.bot_token

add_config-IsRouted : (cfg : BotConfig) (r : Routing) → IsRouted cfg (add_config cfg r)
unfolding add_config
add_config-IsRouted cfg r = record {
  account = simp (get-put, eq_refl);
  inbox = simp (get-put, eq_refl);
  connector = simp (get-put, eq_refl);
  token = simp (get-put, eq_refl);
}

add_configs-IsRouted :
    (cfg : BotConfig) (cfgs : List BotConfig) (r : Routing)
    → IsUnrepeated cfg cfgs
    → IsRouted cfg r
    → IsRouted cfg (add_configs cfgs r)
unfolding add_configs add_config
add_configs-IsRouted cfg [] r u i = i
add_configs-IsRouted cfg (c ∷ cfgs) r ((a, b), u) i =
    add_configs-IsRouted cfg cfgs (add_config c r) u (record {
      account = rw (get-put, a) i.account;
      inbox = rw (get-put, a) i.inbox;
      connector = rw (get-put, b) i.connector;
      token = rw (get-put, a) i.token;
    })

routed :
    (cfg : BotConfig) (before after : List BotConfig) (r : Routing)
    → IsUnrepeated cfg after
    → IsRouted cfg (add_configs (before ++ cfg ∷ after) r)
unfolding add_configs
routed cfg [] after r u =
    add_configs-IsRouted cfg after (add_config cfg r) u (add_config-IsRouted cfg r)
routed cfg (c ∷ before) after r u = routed cfg before after (add_config c r) u

text_at-found :
    (k : String) (d : Dict String) {v : String} → Dict.get k d ≡ some v → text_at k d ≡ v
unfolding text_at
text_at-found k d h = ground arith

item-found : (k : String) (d : Dict String) {v : String} → Dict.get k d ≡ some v → item k d ≡ ok v
unfolding item
item-found k d h = ground arith

account-found :
    (k : String) (r : Routing) {v : String}
    → Dict.get k r.cw_accounts ≡ some v
    → get_cw_account r k ≡ ok v
unfolding get_cw_account
account-found k r h = ground arith

route_of :
    (cfg : BotConfig) (r : Routing)
    → IsRouted cfg r
    → (get_route_by_connector_id r cfg.connector_id
        ≡ ok (record {
          connector_id = cfg.connector_id;
          cw_account_id = cfg.cw_account_id;
          cw_inbox_id = cfg.cw_inbox_id;
          bot_token = cfg.bot_token;
        }))
      × (get_route_by_inbox_id r cfg.cw_inbox_id
          ≡ ok (record {
            connector_id = cfg.connector_id;
            cw_account_id = cfg.cw_account_id;
            bot_token = cfg.bot_token;
          }))
unfolding get_route_by_connector_id get_route_by_inbox_id
route_of cfg r i =
    let account = account-found cfg.connector_id r i.account in
    (
      rw account
          (rw (text_at-found _ r.inboxes i.inbox, text_at-found _ r.bot_tokens i.token) refl),
      rw (item-found cfg.cw_inbox_id r.connectors i.connector)
          (rw account (rw (item-found cfg.connector_id r.bot_tokens i.token) refl)),
    )

-- A configured connector and its inbox lead to each other, with the account and the token of their
-- configuration, unless a later configuration has the same connector or inbox.
pub new_routing-returns :
    (cfg : BotConfig) (before after : List BotConfig)
    → IsUnrepeated cfg after
    → (get_route_by_connector_id (new_routing (before ++ cfg ∷ after)) cfg.connector_id
        ≡ ok (record {
          connector_id = cfg.connector_id;
          cw_account_id = cfg.cw_account_id;
          cw_inbox_id = cfg.cw_inbox_id;
          bot_token = cfg.bot_token;
        }))
      × (get_route_by_inbox_id (new_routing (before ++ cfg ∷ after)) cfg.cw_inbox_id
          ≡ ok (record {
            connector_id = cfg.connector_id;
            cw_account_id = cfg.cw_account_id;
            bot_token = cfg.bot_token;
          }))
unfolding new_routing
new_routing-returns cfg before after u = route_of cfg _ (routed cfg before after no_routes u)
