-- ===== src/DeltaChat/Client/Accounts.antt =====
-- channels/delta_chat_channel/dc_client.py: starting, provisioning of the accounts, stopping. A
-- configuration value is asked for once. The waits of stop for its threads change none of the
-- client's tables.
use delta_gateway_chat_woot.Base.{
  ℕ, String, lower, trim, Bool, true, false, not, ◌||◌, List, [], ◌∷◌, Option, none, some, or_else,
  if◌then◌else◌,
}
use delta_gateway_chat_woot.Base.Dict
use delta_gateway_chat_woot.Base.Dict.{Dict}
use delta_gateway_chat_woot.Errors.{runtime_error, ok}
use delta_gateway_chat_woot.Exec.{Exec, ◌>>=◌, ◌>>◌, pure, raise, gets, modify, when}
use delta_gateway_chat_woot.Values.{str, truthy, or_value}
use delta_gateway_chat_woot.Values.Text.{text_of}
use delta_gateway_chat_woot.DeltaChat.Routing.{AccountConfig}
use delta_gateway_chat_woot.DeltaChat.Client.{
  Core, RuntimeAccount, Settings, Client, on_core, get_account, start_event_thread,
  start_event_threads, register_account,
}
use delta_gateway_chat_woot.DeltaChat.Client.Credentials.{given, resolve_bootstrap_config}

abbrev pub text_or : Option String → String → String
text_or o d = if given o then or_else o "" else d

-- str(Path(dir) / name)
module _ {S : Type 0} (core : Core S) (settings : Settings)
    (join_path : String → String → String) where
  unfoldable pub resolved_storage_dir : AccountConfig → String
  resolved_storage_dir config =
      text_or config.storage_dir (join_path settings.deltachat_accounts_dir config.connector_id)

  unfoldable pub refresh_account_metadata : ℕ → AccountConfig → Exec (Client S) (Unit {0})
  refresh_account_metadata account config = do
    on_core (core.set_config account "displayname" (text_or config.display_name config.address))
    when (given config.avatar_path)
        (on_core (core.set_avatar account (or_else config.avatar_path "")))
    on_core (core.set_config account "ui.connector_id" config.connector_id)
    on_core (core.set_config account "ui.cw_account_id" config.cw_account_id)
    on_core (core.set_config account "ui.cw_inbox_id" config.cw_inbox_id)
    on_core (core.set_config account "ui.storage_dir" (resolved_storage_dir config))

  -- {f(account.get_config(key)): account for account in accounts if account.get_config(key)}
  unfoldable pub accounts_by :
      String → (String → String) → List ℕ → Dict ℕ → Exec (Client S) (Dict ℕ)
  accounts_by key f [] d = pure d
  accounts_by key f (account ∷ rest) d = do
    value ← on_core (core.get_config account key)
    accounts_by key f rest (if truthy value then Dict.put (f (text_of value)) account d else d)

  -- dcaccount_url and existing is not None and existing.is_configured()
  unfoldable pub reusable : AccountConfig → Option ℕ → Exec (Client S) Bool
  reusable config none = pure false
  reusable config (some existing) =
      if given config.dcaccount_url then on_core (core.is_configured existing) else pure false

  -- The account with the address, or a new one.
  unfoldable pub account_for : AccountConfig → Option ℕ → Exec (Client S) (AccountConfig × ℕ)
  account_for effective (some account) = pure (effective, account)
  account_for effective none = do account ← on_core core.add_account; pure (effective, account)

  unfoldable pub bootstrap_account : Dict ℕ → AccountConfig → Exec (Client S) (AccountConfig × ℕ)
  bootstrap_account by_address config = do
    effective ← resolve_bootstrap_config core config
    account_for effective (Dict.get (lower (trim effective.address)) by_address)

  -- The configuration and the account that are used; the flag says whether those from before are.
  unfoldable pub choose_account :
      Dict ℕ → AccountConfig → Option ℕ → Bool → Exec (Client S) (AccountConfig × ℕ)
  choose_account by_address config none reuse = bootstrap_account by_address config
  choose_account by_address config (some existing) false = bootstrap_account by_address config
  choose_account by_address config (some existing) true = do
    addr ← on_core (core.get_config existing "addr")
    pure (record config { address = text_of (or_value addr (str "")) }, existing)

  unfoldable pub set_up : Bool → AccountConfig → ℕ → Exec (Client S) (Unit {0})
  set_up true effective account = refresh_account_metadata account effective
  set_up false effective account = do
    on_core (core.add_or_update_transport account effective.address effective.password)
    refresh_account_metadata account effective
    -- for the log
    configured ← on_core (core.is_configured account)
    pure tt

  unfoldable pub runtime_account : AccountConfig → AccountConfig × ℕ → RuntimeAccount
  runtime_account config (effective, account) = record {
    connector_id = config.connector_id;
    account_id = account;
    address = effective.address;
    storage_dir = resolved_storage_dir effective;
  }

  -- The account is registered and listened to before it is set up.
  unfoldable pub install : AccountConfig → Bool → AccountConfig × ℕ → Exec (Client S) (Unit {0})
  install config reuse chosen = do
    modify (λ c.
        start_event_thread (runtime_account config chosen)
          (register_account (runtime_account config chosen) c))
    set_up reuse chosen.0 chosen.1

  -- one turn of the loop over the configurations
  unfoldable pub sync_account : Dict ℕ → Dict ℕ → AccountConfig → Exec (Client S) (Unit {0})
  sync_account by_address by_connector_id config = do
    reuse ← reusable config (Dict.get config.connector_id by_connector_id)
    chosen ← choose_account by_address config (Dict.get config.connector_id by_connector_id) reuse
    install config reuse chosen

  unfoldable pub sync_each : Dict ℕ → Dict ℕ → List AccountConfig → Exec (Client S) (Unit {0})
  sync_each by_address by_connector_id [] = pure tt
  sync_each by_address by_connector_id (config ∷ rest) =
      sync_account by_address by_connector_id config >> sync_each by_address by_connector_id rest

  unfoldable pub require_started : Exec (Client S) (Unit {0})
  require_started = do
    deltachat ← gets (λ c. c.deltachat)
    if deltachat then pure tt else raise runtime_error

  -- the rest of `_sync_accounts`
  unfoldable pub provision : Exec (Client S) (Unit {0})
  provision = do
    existing ← on_core core.get_all_accounts
    by_address ← accounts_by "addr" (λ a. lower (trim a)) existing []
    by_connector_id ← accounts_by "ui.connector_id" (λ i. i) existing []
    sync_each by_address by_connector_id settings.delta_chat_accounts

  unfoldable pub sync_accounts : Exec (Client S) (Unit {0})
  sync_accounts = require_started >> provision

  unfoldable pub go_online : Exec (Client S) (Unit {0})
  go_online = do on_core core.start_io; modify start_event_threads

  unfoldable pub bring_up : Exec (Client S) (Unit {0})
  bring_up = do
    modify (λ c. record c { rpc = true })
    on_core core.start
    modify (λ c. record c { deltachat = true })

  -- `_start_locked` of a client that is not running
  unfoldable pub launch : Exec (Client S) (Unit {0})
  launch = do bring_up; sync_accounts; go_online

  unfoldable pub start : Exec (Client S) (Unit {0})
  start c = if not settings.enable_native_deltachat_channel || c.rpc then (ok tt, c) else launch c

  unfoldable pub get_secure_join_qr_svg : String → Exec (Client S) String
  get_secure_join_qr_svg connector_id = do
    account ← get_account connector_id
    on_core (core.get_qr_code_svg account)

  -- the end of `stop`
  unfoldable pub cleared : Client S → Client S
  cleared c = record c {
    rpc = false;
    deltachat = false;
    accounts_by_connector_id = [];
    accounts_by_account_id = [];
    account_objects_by_connector_id = [];
    account_objects_by_account_id = [];
    event_threads = [];
    stop_event = false;
  }

  unfoldable pub end_io : Exec (Client S) (Unit {0})
  end_io c = when c.deltachat (on_core core.stop_io) c

  unfoldable pub end_rpc : Exec (Client S) (Unit {0})
  end_rpc c = when c.rpc (on_core core.close) c

  unfoldable pub shut_down : Exec (Client S) (Unit {0})
  shut_down = do modify (λ c. record c { stop_event = true }); end_io; end_rpc

  unfoldable pub stop : Exec (Client S) (Unit {0})
  stop =
      if settings.enable_native_deltachat_channel then (do shut_down; modify cleared) else pure tt
