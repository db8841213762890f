-- ===== src/DeltaChat/Client.antt =====
-- channels/delta_chat_channel/dc_client.py: the client of the Delta Chat core. The core behind
-- deltachat_rpc_client and the HTTP client are a parameter. The lock of `start` has no effect here,
-- since a model of one call has no other caller.
pub mod Credentials
pub mod Accounts
pub mod Events
pub mod Provision
pub mod Marks
pub mod Launch
pub mod Restart
pub mod Download
use delta_gateway_chat_woot.Base.{
  ℕ, ◌==◌, pos, String, str_eq, append, Bool, true, false, List, [], ◌∷◌, ◌++◌, Option, none, some,
  any, if◌then◌else◌,
}
use delta_gateway_chat_woot.Base.Dict
use delta_gateway_chat_woot.Base.Dict.{Dict}
use delta_gateway_chat_woot.Errors.{Exc, key_error, Result, ok, err}
use delta_gateway_chat_woot.Exec.{
  Exec, ◌>>=◌, ◌>>◌, pure, raise, lift, gets, attempt, modify, when, for_each,
}
use delta_gateway_chat_woot.Values.{Value, int}
use delta_gateway_chat_woot.DeltaChat.Routing.{AccountConfig, Routing, register_account_id}

-- The core, the accounts and messages by their ids, and what `httpx.post` gives.
pub record Core (S : Type 0) : Type 0 where
  pub start : Exec S (Unit {0})
  pub close : Exec S (Unit {0})
  pub start_io : Exec S (Unit {0})
  pub stop_io : Exec S (Unit {0})
  pub get_all_accounts : Exec S (List ℕ)
  pub add_account : Exec S ℕ
  pub get_config : ℕ → String → Exec S Value
  pub set_config : ℕ → String → String → Exec S (Unit {0})
  pub set_avatar : ℕ → String → Exec S (Unit {0})
  pub is_configured : ℕ → Exec S Bool
  pub add_or_update_transport : ℕ → (addr password : String) → Exec S (Unit {0})
  pub get_qr_code_svg : ℕ → Exec S String
  pub post : String → Exec S Value

pub record RuntimeAccount : Type 0 where
  pub connector_id : String
  pub account_id : ℕ
  pub address : String
  pub storage_dir : String

pub record Settings : Type 0 where
  pub enable_native_deltachat_channel : Bool
  pub deltachat_accounts_dir : String
  pub delta_chat_accounts : List AccountConfig
  pub download_timeout_ms : ℕ

-- The client with the routing that it shares and the core. An account object is its id, and a thread
-- of the list `_event_threads` its connector: that list is what is modelled, and not which threads
-- run. One that stop has waited for in vain for a second goes on outside of it.
pub record Client (S : Type 0) : Type 0 where
  pub rpc : Bool
  pub deltachat : Bool
  pub accounts_by_connector_id : Dict RuntimeAccount
  pub accounts_by_account_id : List (ℕ × RuntimeAccount)
  pub account_objects_by_connector_id : Dict ℕ
  pub account_objects_by_account_id : List (ℕ × ℕ)
  pub new_message_handler : Bool
  pub stop_event : Bool
  pub event_threads : List String
  pub event_thread_connectors : List String
  pub routing : Routing
  pub core : S

abbrev pub new_client : {S : Type 0} → Routing → S → Client S
new_client routing core = record {
  rpc = false;
  deltachat = false;
  accounts_by_connector_id = [];
  accounts_by_account_id = [];
  account_objects_by_connector_id = [];
  account_objects_by_account_id = [];
  new_message_handler = false;
  stop_event = false;
  event_threads = [];
  event_thread_connectors = [];
  routing = routing;
  core = core;
}

-- name in names
abbrev pub has : String → List String → Bool
has k names = any (λ j. str_eq j k) names

-- d[k] = v with a number for a key
unfoldable pub put_id {ℓ} : {V : Type ℓ} → ℕ → V → List (ℕ × V) → List (ℕ × V)
put_id k v [] = (k, v) ∷ []
put_id k v ((j, w) ∷ d) = if j == k then (k, v) ∷ d else (j, w) ∷ put_id k v d

unfoldable pub get_id {ℓ} : {V : Type ℓ} → ℕ → List (ℕ × V) → Option V
get_id k [] = none
get_id k ((j, v) ∷ d) = if j == k then some v else get_id k d

-- d[k], with KeyError
found : {A : Type 0} → Option A → Result A
found none = err key_error
found (some a) = ok a

module _ {S : Type 0} where
  -- a call of the core
  unfoldable pub on_core : {A : Type 0} → Exec S A → Exec (Client S) A
  on_core m c = let (r, core) = m c.core in (r, record c { core = core })

  unfoldable pub get_account : String → Exec (Client S) ℕ
  unfolding found
  get_account connector_id c = (found (Dict.get connector_id c.account_objects_by_connector_id), c)

  unfoldable pub get_runtime_account_by_connector_id : String → Exec (Client S) RuntimeAccount
  unfolding found
  get_runtime_account_by_connector_id connector_id c =
      (found (Dict.get connector_id c.accounts_by_connector_id), c)

  unfoldable pub get_runtime_account_by_account_id : ℕ → Exec (Client S) RuntimeAccount
  unfolding found
  get_runtime_account_by_account_id account_id c =
      (found (get_id account_id c.accounts_by_account_id), c)

  unfoldable pub start_event_thread : RuntimeAccount → Client S → Client S
  start_event_thread runtime_account c =
      if has runtime_account.connector_id c.event_thread_connectors then c else record c {
        event_thread_connectors = runtime_account.connector_id ∷ c.event_thread_connectors;
        event_threads = c.event_threads ++ runtime_account.connector_id ∷ [];
      }

  pub start_each : Dict RuntimeAccount → Client S → Client S
  start_each [] c = c
  start_each ((k, a) ∷ d) c = start_each d (start_event_thread a c)

  unfoldable pub start_event_threads : Client S → Client S
  unfolding start_each
  start_event_threads c = start_each c.accounts_by_connector_id c

  unfoldable pub register_message_handler : Client S → Client S
  register_message_handler c =
      let c' = record c { new_message_handler = true } in
      if c.deltachat then start_event_threads c' else c'

  -- The four dictionaries and the routing of `_sync_accounts`.
  unfoldable pub register_account : RuntimeAccount → Client S → Client S
  register_account a c = record c {
    accounts_by_connector_id = Dict.put a.connector_id a c.accounts_by_connector_id;
    accounts_by_account_id = put_id a.account_id a c.accounts_by_account_id;
    account_objects_by_connector_id =
        Dict.put a.connector_id a.account_id c.account_objects_by_connector_id;
    account_objects_by_account_id =
        put_id a.account_id a.account_id c.account_objects_by_account_id;
    routing = register_account_id a.connector_id (int (pos a.account_id)) c.routing;
  }
