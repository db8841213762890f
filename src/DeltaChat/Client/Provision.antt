-- ===== src/DeltaChat/Client/Provision.antt =====
-- What the provisioning of the accounts does to the threads: only `_start_event_thread` touches them.
use delta_gateway_chat_woot.Base.{
  ℕ, String, Bool, true, false, List, [], ◌∷◌, Option, none, some, All, ◌≡◌, refl,
}
use delta_gateway_chat_woot.Base.Dict
use delta_gateway_chat_woot.Base.Dict.{Dict}
use delta_gateway_chat_woot.Exec.{Exec, modify, when}
use delta_gateway_chat_woot.Exec.Kept.{Preserves, bind-Preserves, when-Preserves, if-Preserves}
use delta_gateway_chat_woot.DeltaChat.Routing.{AccountConfig}
use delta_gateway_chat_woot.DeltaChat.Client.{
  Core, RuntimeAccount, Settings, Client, on_core, start_event_thread, register_account,
}
use delta_gateway_chat_woot.DeltaChat.Client.Credentials.{
  given, load_dcaccount_credentials, resolve_bootstrap_config,
}
use delta_gateway_chat_woot.DeltaChat.Client.Accounts.{
  accounts_by, refresh_account_metadata, reusable, account_for, bootstrap_account, choose_account,
  set_up, runtime_account, install, sync_account, sync_each,
}

-- A property of the threads and of the accounts that they are for.
module _ {S : Type 0} (core : Core S) (settings : Settings) (join_path : String → String → String)
    (R : List String → List String → Dict RuntimeAccount → Type 0) where
  abbrev pub P : Client S → Type 0
  P c = R c.event_threads c.event_thread_connectors c.accounts_by_connector_id

  pub on_core-P : {A : Type 0} (m : Exec S A) → Preserves P (on_core m)
  unfolding on_core
  on_core-P m c h = h

  refresh-P :
      (account : ℕ) (config : AccountConfig)
      → Preserves P (refresh_account_metadata core settings join_path account config)
  unfolding refresh_account_metadata
  refresh-P account config =
      bind-Preserves P (on_core (core.set_config account "displayname" _)) _ (on_core-P _) (λ _.
        bind-Preserves P (when (given config.avatar_path) _) _
          (when-Preserves P (given config.avatar_path) _ (on_core-P _))
          (λ _. bind-Preserves P (on_core _) _ (on_core-P _) (λ _.
            bind-Preserves P (on_core _) _ (on_core-P _)
              (λ _. bind-Preserves P (on_core _) _ (on_core-P _) (λ _. on_core-P _)))))

  resolve-P : (config : AccountConfig) → Preserves P (resolve_bootstrap_config core config)
  unfolding resolve_bootstrap_config load_dcaccount_credentials
  resolve-P config =
      if-Preserves P (given config.dcaccount_url) _ _
        (bind-Preserves P _ _
          (if-Preserves P _ _ _ (λ c h. h)
            (bind-Preserves P (on_core _) _ (on_core-P _) (λ payload c h. h)))
          (λ credentials c h. h))
        (λ c h. h)

  pub accounts_by-P :
      (key : String) (f : String → String) (accounts : List ℕ) (d : Dict ℕ)
      → Preserves P (accounts_by core settings join_path key f accounts d)
  unfolding accounts_by
  accounts_by-P key f [] d c h = h
  accounts_by-P key f (a ∷ rest) d c h =
      bind-Preserves P (on_core (core.get_config a key)) _ (on_core-P _)
        (λ value. accounts_by-P key f rest _) c h

  pub reusable-P :
      (config : AccountConfig) (o : Option ℕ)
      → Preserves P (reusable core settings join_path config o)
  unfolding reusable
  reusable-P config none c h = h
  reusable-P config (some a) c h =
      if-Preserves P (given config.dcaccount_url) _ _ (on_core-P _) (λ c h. h) c h

  account_for-P :
      (effective : AccountConfig) (o : Option ℕ)
      → Preserves P (account_for core settings join_path effective o)
  unfolding account_for
  account_for-P effective none c h =
      bind-Preserves P (on_core core.add_account) _ (on_core-P _) (λ a c h. h) c h
  account_for-P effective (some a) c h = h

  bootstrap_account-P :
      (by_address : Dict ℕ) (config : AccountConfig)
      → Preserves P (bootstrap_account core settings join_path by_address config)
  unfolding bootstrap_account
  bootstrap_account-P by_address config =
      bind-Preserves P (resolve_bootstrap_config core config) _ (resolve-P config)
        (λ effective. account_for-P effective _)

  pub choose_account-P :
      (by_address : Dict ℕ) (config : AccountConfig) (o : Option ℕ) (reuse : Bool)
      → Preserves P (choose_account core settings join_path by_address config o reuse)
  unfolding choose_account
  choose_account-P by_address config none reuse = bootstrap_account-P by_address config
  choose_account-P by_address config (some e) false = bootstrap_account-P by_address config
  choose_account-P by_address config (some e) true =
      bind-Preserves P (on_core (core.get_config e "addr")) _ (on_core-P _) (λ a c h. h)

  pub set_up-P :
      (reuse : Bool) (config : AccountConfig) (account : ℕ)
      → Preserves P (set_up core settings join_path reuse config account)
  unfolding set_up
  set_up-P true config account = refresh-P account config
  set_up-P false config account = bind-Preserves P (on_core _) _ (on_core-P _) (λ _.
      bind-Preserves P _ _ (refresh-P account config)
        (λ _. bind-Preserves P (on_core _) _ (on_core-P _) (λ configured c h. h)))

  -- Starting the threads of the accounts with a connector of `config`.
  abbrev pub Starts : AccountConfig → Type 0
  Starts config =
      (a : RuntimeAccount) (c : Client S)
      → a.connector_id ≡ config.connector_id
      → P c
      → P (start_event_thread a (register_account a c))

  pub install-P :
      (config : AccountConfig) (reuse : Bool) (chosen : AccountConfig × ℕ)
      → Starts config
      → Preserves P (install core settings join_path config reuse chosen)
  unfolding install runtime_account
  install-P config reuse (effective, account) starts =
      bind-Preserves P (modify _) (λ _. set_up core settings join_path reuse effective account)
        (λ c h.
          starts (runtime_account core settings join_path config (effective, account)) c refl h)
        (λ _. set_up-P reuse effective account)

  pub sync_account-P :
      (by_address by_connector_id : Dict ℕ) (config : AccountConfig)
      → Starts config
      → Preserves P (sync_account core settings join_path by_address by_connector_id config)
  unfolding sync_account
  sync_account-P by_address by_connector_id config starts =
      let existing = Dict.get config.connector_id by_connector_id in
      bind-Preserves P (reusable core settings join_path config existing) _
        (reusable-P config existing)
        (λ reuse.
          bind-Preserves P (choose_account core settings join_path by_address config existing reuse)
            (λ chosen. install core settings join_path config reuse chosen)
            (choose_account-P by_address config existing reuse)
            (λ chosen. install-P config reuse chosen starts))

  pub sync_each-P :
      (by_address by_connector_id : Dict ℕ) (configs : List AccountConfig)
      → All Starts configs
      → Preserves P (sync_each core settings join_path by_address by_connector_id configs)
  unfolding sync_each
  sync_each-P by_address by_connector_id [] h c p = p
  sync_each-P by_address by_connector_id (config ∷ rest) h c p =
      bind-Preserves P (sync_account core settings join_path by_address by_connector_id config) _
        (sync_account-P by_address by_connector_id config h.0)
        (λ _. sync_each-P by_address by_connector_id rest h.1) c p
