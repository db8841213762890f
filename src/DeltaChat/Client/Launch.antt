-- ===== src/DeltaChat/Client/Launch.antt =====
-- dc_client.py: what a launch of the client does to the event threads and the accounts that they
-- are for.
use delta_gateway_chat_woot.Base.{String, lower, trim, true, List, [], ◌≡◌, arith}
use delta_gateway_chat_woot.Base.Dict.{Dict}
use delta_gateway_chat_woot.Exec.{◌>>◌, modify}
use delta_gateway_chat_woot.Exec.Kept.{
  Preserves, Leads, bind-Preserves, bind-Leads, bind-Leads_kept,
}
use delta_gateway_chat_woot.DeltaChat.Client.{
  Core, RuntimeAccount, Settings, Client, on_core, start_event_threads,
}
use delta_gateway_chat_woot.DeltaChat.Client.Accounts.{
  accounts_by, require_started, provision, sync_accounts, go_online, bring_up, launch,
}
use delta_gateway_chat_woot.DeltaChat.Client.Provision.{P, on_core-P, accounts_by-P, sync_each-P}
use delta_gateway_chat_woot.DeltaChat.Client.Marks.{
  Covers, IsDeaf, start_each-Covers, start_each_marked, Starts-IsDeaf_all, sync_each-Leads,
}

module _ {S : Type 0} (core : Core S) (settings : Settings)
    (join_path : String → String → String) where
  provision-Leads :
      Leads
        (λ c. Unit {0})
        (provision core settings join_path)
        (P core settings join_path (Covers settings.delta_chat_accounts))
  unfolding provision
  provision-Leads =
      let Q : Client S → Type 0 = P core settings join_path (Covers settings.delta_chat_accounts) in
      let T : Client S → Type 0 = λ c. Unit {0} in
      bind-Leads T T Q (on_core core.get_all_accounts) _ (λ c p a e. tt)
        (λ existing.
          bind-Leads T T Q
            (accounts_by core settings join_path "addr" (λ a. lower (trim a)) existing []) _
            (λ c p a e. tt)
            (λ by_address.
              bind-Leads T T Q
                (accounts_by core settings join_path "ui.connector_id" (λ i. i) existing []) _
                (λ c p a e. tt)
                (λ by_connector_id.
                  sync_each-Leads core settings join_path by_address by_connector_id
                    settings.delta_chat_accounts)))

  provision-IsDeaf :
      Preserves
        (P core settings join_path (IsDeaf settings.delta_chat_accounts))
        (provision core settings join_path)
  unfolding provision
  provision-IsDeaf =
      let R : List String → List String → Dict RuntimeAccount → Type 0 =
        IsDeaf settings.delta_chat_accounts in
      let Q : Client S → Type 0 = P core settings join_path R in
      bind-Preserves Q (on_core core.get_all_accounts) _
        (on_core-P core settings join_path R core.get_all_accounts)
        (λ existing.
          bind-Preserves Q
            (accounts_by core settings join_path "addr" (λ a. lower (trim a)) existing []) _
            (accounts_by-P core settings join_path R "addr" (λ a. lower (trim a)) existing [])
            (λ by_address.
              bind-Preserves Q
                (accounts_by core settings join_path "ui.connector_id" (λ i. i) existing []) _
                (accounts_by-P core settings join_path R "ui.connector_id" (λ i. i) existing [])
                (λ by_connector_id.
                  sync_each-P core settings join_path R by_address by_connector_id
                    settings.delta_chat_accounts
                    (Starts-IsDeaf_all core settings join_path settings.delta_chat_accounts
                      settings.delta_chat_accounts (λ ks h. h)))))

  require_started_state : (c : Client S) → (require_started core settings join_path c).1 ≡ c
  unfolding require_started
  require_started_state c = ground arith

  go_online-Covers :
      Preserves
        (P core settings join_path (Covers settings.delta_chat_accounts))
        (go_online core settings join_path)
  unfolding go_online start_event_threads
  go_online-Covers =
      let R : List String → List String → Dict RuntimeAccount → Type 0 =
        Covers settings.delta_chat_accounts in
      bind-Preserves (P core settings join_path R) (on_core core.start_io)
        (λ _. modify start_event_threads) (on_core-P core settings join_path R core.start_io)
        (λ _ c h. start_each-Covers settings.delta_chat_accounts c.accounts_by_connector_id c h)

  go_online-IsDeaf :
      Preserves
        (P core settings join_path (IsDeaf settings.delta_chat_accounts))
        (go_online core settings join_path)
  unfolding go_online start_event_threads
  go_online-IsDeaf =
      let R : List String → List String → Dict RuntimeAccount → Type 0 =
        IsDeaf settings.delta_chat_accounts in
      bind-Preserves (P core settings join_path R) (on_core core.start_io)
        (λ _. modify start_event_threads) (on_core-P core settings join_path R core.start_io)
        (λ _ c h. rw (start_each_marked c.accounts_by_connector_id c h.2) h)

  pub launch-Leads :
      Leads
        (λ c. Unit {0})
        (launch core settings join_path)
        (P core settings join_path (Covers settings.delta_chat_accounts))
  unfolding launch sync_accounts
  launch-Leads =
      let Q : Client S → Type 0 = P core settings join_path (Covers settings.delta_chat_accounts) in
      let T : Client S → Type 0 = λ c. Unit {0} in
      let go = go_online core settings join_path in
      let sync = sync_accounts core settings join_path in
      bind-Leads T T Q (bring_up core settings join_path) (λ _. sync >> go) (λ c p a e. tt)
        (λ _.
          bind-Leads_kept T Q sync (λ _. go)
            (bind-Leads T T Q (require_started core settings join_path)
              (λ _. provision core settings join_path) (λ c p a e. tt) (λ _. provision-Leads))
            (λ _. go_online-Covers))

  bring_up-P :
      (R : List String → List String → Dict RuntimeAccount → Type 0)
      → Preserves (P core settings join_path R) (bring_up core settings join_path)
  unfolding bring_up
  bring_up-P R =
      let Q : Client S → Type 0 = P core settings join_path R in
      bind-Preserves Q (modify (λ c. record c { rpc = true }))
        (λ _. on_core core.start >> modify (λ c. record c { deltachat = true })) (λ c p. p)
        (λ _.
          bind-Preserves Q (on_core core.start) (λ _. modify (λ c. record c { deltachat = true }))
            (on_core-P core settings join_path R core.start) (λ _ c p. p))

  pub launch-IsDeaf :
      Preserves
        (P core settings join_path (IsDeaf settings.delta_chat_accounts))
        (launch core settings join_path)
  unfolding launch sync_accounts
  launch-IsDeaf =
      let R : List String → List String → Dict RuntimeAccount → Type 0 =
        IsDeaf settings.delta_chat_accounts in
      let Q : Client S → Type 0 = P core settings join_path R in
      let go = go_online core settings join_path in
      let sync = sync_accounts core settings join_path in
      bind-Preserves Q (bring_up core settings join_path) (λ _. sync >> go) (bring_up-P R)
        (λ _.
          bind-Preserves Q sync (λ _. go)
            (bind-Preserves Q (require_started core settings join_path)
              (λ _. provision core settings join_path) (λ c p. rw (require_started_state c) p)
              (λ _. provision-IsDeaf))
            (λ _. go_online-IsDeaf))
