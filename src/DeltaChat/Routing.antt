-- ===== src/DeltaChat/Routing.antt =====
-- channels/delta_chat_channel/dc_routing.py and the configuration of dc_models.py.
pub mod Inboxes
use delta_gateway_chat_woot.Base.{
  String, str_eq, List, [], ◌∷◌, Option, none, some, or_else, if◌then◌else◌,
}
use delta_gateway_chat_woot.Base.Dict
use delta_gateway_chat_woot.Base.Dict.{Dict}
use delta_gateway_chat_woot.Errors.{Exc, connector_not_found_error, Result, ok, err}
use delta_gateway_chat_woot.Values.{Value}
use delta_gateway_chat_woot.Values.Text.{text_of}

pub record AccountConfig : Type 0 where
  pub connector_id : String
  pub address : String
  pub password : String
  pub dcaccount_url : Option String
  pub display_name : Option String
  pub avatar_path : Option String
  pub bridge_url : Option String
  pub cw_account_id : String
  pub cw_inbox_id : String
  pub storage_dir : Option String

pub record Routing : Type 0 where
  pub by_connector_id : Dict AccountConfig
  pub by_account_id : Dict String

-- the dictionary of texts that a route is
pub record Route : Type 0 where
  pub connector_id : String
  pub address : String
  pub password : String
  pub dcaccount_url : String
  pub display_name : String
  pub avatar_path : String
  pub bridge_url : String
  pub cw_account_id : String
  pub cw_inbox_id : String
  pub storage_dir : String

unfoldable pub configured : List AccountConfig → Dict AccountConfig → Dict AccountConfig
configured [] d = d
configured (cfg ∷ cfgs) d = configured cfgs (Dict.put cfg.connector_id cfg d)

unfoldable pub new_routing : List AccountConfig → Routing
new_routing cfgs = record { by_connector_id = configured cfgs []; by_account_id = [] }

unfoldable pub get_default_connector_id : Routing → Result String
get_default_connector_id r = elim r.by_connector_id [
  | [] ↦ err connector_not_found_error
  | e ∷ d ↦ ok e.0
]

unfoldable pub register_account_id : String → Value → Routing → Routing
register_account_id connector_id account_id r = record r {
  by_account_id = Dict.put (text_of account_id) connector_id r.by_account_id;
}

unfoldable pub get_connector_id_by_account_id : Routing → Value → Result String
get_connector_id_by_account_id r account_id = elim (Dict.get (text_of account_id) r.by_account_id) [
  | none ↦ err connector_not_found_error
  | some c ↦ ok c
]

abbrev pub route_of : AccountConfig → Route
route_of cfg = record {
  connector_id = cfg.connector_id;
  address = cfg.address;
  password = cfg.password;
  dcaccount_url = or_else cfg.dcaccount_url "";
  display_name = or_else cfg.display_name "";
  avatar_path = or_else cfg.avatar_path "";
  bridge_url = or_else cfg.bridge_url "";
  cw_account_id = cfg.cw_account_id;
  cw_inbox_id = cfg.cw_inbox_id;
  storage_dir = or_else cfg.storage_dir "";
}

unfoldable pub get_route_by_connector_id : Routing → String → Result Route
get_route_by_connector_id r connector_id = elim (Dict.get connector_id r.by_connector_id) [
  | none ↦ err connector_not_found_error
  | some cfg ↦ ok (route_of cfg)
]

-- the first connector whose configuration has the inbox
unfoldable pub connector_of_inbox : String → Dict AccountConfig → Option String
connector_of_inbox inbox_id [] = none
connector_of_inbox inbox_id ((connector_id, cfg) ∷ d) =
    if str_eq cfg.cw_inbox_id inbox_id then some connector_id else connector_of_inbox inbox_id d

unfoldable pub get_route_by_inbox_id : Routing → String → Result Route
get_route_by_inbox_id r inbox_id = elim (connector_of_inbox inbox_id r.by_connector_id) [
  | none ↦ err connector_not_found_error
  | some connector_id ↦ get_route_by_connector_id r connector_id
]
