-- ===== src/DeltaChat/Client/Marks.antt =====
-- The connectors that `_event_thread_connectors` marks, and what starting a thread does to them.
use delta_gateway_chat_woot.Base.{
  ℕ, String, str_eq, eq_refl, Bool, true, List, [], ◌∷◌, All, Bool-cases, inl, inr, ◌≡◌, refl, sym,
  arith,
}
use delta_gateway_chat_woot.Base.Dict
use delta_gateway_chat_woot.Base.Dict.{Dict}
use delta_gateway_chat_woot.Exec.{modify}
use delta_gateway_chat_woot.Exec.Kept.{Leads, bind-Leads, bind-Leads_kept}
use delta_gateway_chat_woot.DeltaChat.Routing.{AccountConfig}
use delta_gateway_chat_woot.DeltaChat.Client.{
  Core, RuntimeAccount, Settings, Client, has, start_event_thread, start_each, register_account,
}
use delta_gateway_chat_woot.DeltaChat.Client.Accounts.{
  reusable, choose_account, set_up, runtime_account, install, sync_account, sync_each,
}
use delta_gateway_chat_woot.DeltaChat.Client.Provision.{P, set_up-P, sync_each-P, Starts}

-- The connectors of the configurations are marked as listened to.
abbrev pub Covers : List AccountConfig → List String → List String → Dict RuntimeAccount → Type 0
Covers configs threads connectors accounts =
    All (λ cfg. has cfg.connector_id connectors ≡ true) configs

-- Besides, `_event_threads` is empty, and every account is one that is marked.
abbrev pub IsDeaf : List AccountConfig → List String → List String → Dict RuntimeAccount → Type 0
IsDeaf configs threads connectors accounts =
    (threads ≡ [])
    × Covers configs threads connectors accounts
    × All (λ e. has e.1.connector_id connectors ≡ true) accounts

has-cons : (j k : String) (ks : List String) → has k ks ≡ true → has k (j ∷ ks) ≡ true
has-cons j k ks h = ground arith

All-cons :
    (j : String) (ks : List String) (configs : List AccountConfig)
    → All (λ cfg. has cfg.connector_id ks ≡ true) configs
    → All (λ cfg. has cfg.connector_id (j ∷ ks) ≡ true) configs
All-cons j ks [] h = tt
All-cons j ks (cfg ∷ configs) h = (has-cons j cfg.connector_id ks h.0, All-cons j ks configs h.1)

put-All :
    (k : String) (a : RuntimeAccount) (ks : List String) (d : Dict RuntimeAccount)
    → has a.connector_id ks ≡ true
    → All (λ e. has e.1.connector_id ks ≡ true) d
    → All (λ e. has e.1.connector_id ks ≡ true) (Dict.put k a d)
unfolding Dict.put
put-All k a ks [] m h = (m, tt)
put-All k a ks ((j, b) ∷ d) m h = elim (Bool-cases (str_eq j k)) [
  | inl same ↦ rw same (m, h.1)
  | inr differs ↦ rw differs (h.0, put-All k a ks d m h.1)
]

module _ {S : Type 0} where
  start_event_thread-Covers :
      (configs : List AccountConfig) (a : RuntimeAccount) (c : Client S)
      → All (λ cfg. has cfg.connector_id c.event_thread_connectors ≡ true) configs
      → All
          (λ cfg. has cfg.connector_id (start_event_thread a c).event_thread_connectors ≡ true)
          configs
  unfolding start_event_thread
  start_event_thread-Covers configs a c h =
      elim (Bool-cases (has a.connector_id c.event_thread_connectors)) [
        | inl old ↦ rw old h
        | inr new ↦ rw new (All-cons a.connector_id c.event_thread_connectors configs h)
      ]

  pub start_each-Covers :
      (configs : List AccountConfig) (d : Dict RuntimeAccount) (c : Client S)
      → All (λ cfg. has cfg.connector_id c.event_thread_connectors ≡ true) configs
      → All (λ cfg. has cfg.connector_id (start_each d c).event_thread_connectors ≡ true) configs
  unfolding start_each
  start_each-Covers configs [] c h = h
  start_each-Covers configs ((k, a) ∷ d) c h =
      start_each-Covers configs d (start_event_thread a c) (start_event_thread-Covers configs a c h)

  -- A marked connector gets no thread.
  pub start_each_marked :
      (d : Dict RuntimeAccount) (c : Client S)
      → All (λ e. has e.1.connector_id c.event_thread_connectors ≡ true) d
      → start_each d c ≡ c
  unfolding start_each start_event_thread
  start_each_marked [] c h = refl
  start_each_marked ((k, a) ∷ d) c h = rw h.0 (start_each_marked d c h.1)

module _ {S : Type 0} (core : Core S) (settings : Settings)
    (join_path : String → String → String) where
  start_event_thread_marks :
      (config : AccountConfig) (a : RuntimeAccount) (c : Client S)
      → a.connector_id ≡ config.connector_id
      → has config.connector_id (start_event_thread a c).event_thread_connectors ≡ true
  unfolding start_event_thread
  start_event_thread_marks config a c e =
      rw (sym e) (elim (Bool-cases (has a.connector_id c.event_thread_connectors)) [
        | inl old ↦ rw old old
        | inr new ↦ rw new (rw (eq_refl a.connector_id) refl)
      ])

  Starts-Covers :
      (configs : List AccountConfig) (config : AccountConfig)
      → Starts core settings join_path (Covers configs) config
  unfolding register_account
  Starts-Covers configs config a c e h =
      start_event_thread-Covers configs a (register_account a c) h

  Starts-IsDeaf :
      (configs : List AccountConfig) (config : AccountConfig)
      → ((ks : List String)
          → All (λ cfg. has cfg.connector_id ks ≡ true) configs
          → has config.connector_id ks ≡ true)
      → Starts core settings join_path (IsDeaf configs) config
  unfolding register_account start_event_thread
  Starts-IsDeaf configs config member a c e h =
      let marked : has a.connector_id c.event_thread_connectors ≡ true =
        rw e (member c.event_thread_connectors h.1) in
      rw marked (
        h.0,
        h.1,
        put-All a.connector_id a c.event_thread_connectors c.accounts_by_connector_id marked h.2,
      )

  pub Starts-IsDeaf_all :
      (configs others : List AccountConfig)
      → ((ks : List String)
          → All (λ cfg. has cfg.connector_id ks ≡ true) configs
          → All (λ cfg. has cfg.connector_id ks ≡ true) others)
      → All (Starts core settings join_path (IsDeaf configs)) others
  Starts-IsDeaf_all configs [] sub = tt
  Starts-IsDeaf_all configs (config ∷ others) sub = (
    Starts-IsDeaf configs config (λ ks h. (sub ks h).0),
    Starts-IsDeaf_all configs others (λ ks h. (sub ks h).1),
  )

  install-Leads :
      (config : AccountConfig) (reuse : Bool) (chosen : AccountConfig × ℕ)
      → Leads
          (λ c. Unit {0})
          (install core settings join_path config reuse chosen)
          (P core settings join_path (Covers (config ∷ [])))
  unfolding install runtime_account
  install-Leads config reuse (effective, account) =
      bind-Leads_kept (λ c. Unit {0}) (P core settings join_path (Covers (config ∷ []))) (modify _)
        (λ _. set_up core settings join_path reuse effective account)
        (λ c p a e. (start_event_thread_marks config _ _ refl, tt))
        (λ _. set_up-P core settings join_path (Covers (config ∷ [])) reuse effective account)

  sync_account-Leads :
      (by_address by_connector_id : Dict ℕ) (config : AccountConfig)
      → Leads
          (λ c. Unit {0})
          (sync_account core settings join_path by_address by_connector_id config)
          (P core settings join_path (Covers (config ∷ [])))
  unfolding sync_account
  sync_account-Leads by_address by_connector_id config =
      let existing = Dict.get config.connector_id by_connector_id in
      let Q : Client S → Type 0 = P core settings join_path (Covers (config ∷ [])) in
      bind-Leads (λ c. Unit {0}) (λ c. Unit {0}) Q
        (reusable core settings join_path config existing) _ (λ c p a e. tt)
        (λ reuse.
          bind-Leads (λ c. Unit {0}) (λ c. Unit {0}) Q
            (choose_account core settings join_path by_address config existing reuse)
            (λ chosen. install core settings join_path config reuse chosen) (λ c p a e. tt)
            (λ chosen. install-Leads config reuse chosen))

  Starts-all :
      (configs others : List AccountConfig)
      → All (Starts core settings join_path (Covers configs)) others
  Starts-all configs [] = tt
  Starts-all configs (config ∷ others) = (Starts-Covers configs config, Starts-all configs others)

  pub sync_each-Leads :
      (by_address by_connector_id : Dict ℕ) (configs : List AccountConfig)
      → Leads
          (λ c. Unit {0})
          (sync_each core settings join_path by_address by_connector_id configs)
          (P core settings join_path (Covers configs))
  unfolding sync_each
  sync_each-Leads by_address by_connector_id [] c p a e = tt
  sync_each-Leads by_address by_connector_id (config ∷ rest) c p a e =
      let m = sync_account core settings join_path by_address by_connector_id config in
      let rest_of = sync_each core settings join_path by_address by_connector_id rest in
      (
        (bind-Leads_kept (λ c. Unit {0}) (P core settings join_path (Covers (config ∷ []))) m
            (λ _. rest_of) (sync_account-Leads by_address by_connector_id config)
            (λ _.
              sync_each-P core settings join_path (Covers (config ∷ [])) by_address by_connector_id
                rest (Starts-all (config ∷ []) rest))
            c tt a e).0,
        bind-Leads (λ c. Unit {0}) (λ c. Unit {0}) (P core settings join_path (Covers rest)) m
            (λ _. rest_of) (λ c p a e. tt) (λ _. sync_each-Leads by_address by_connector_id rest) c
            tt a e,
      )
