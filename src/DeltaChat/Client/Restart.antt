-- ===== src/DeltaChat/Client/Restart.antt =====
-- The event threads that a client starts when it is started again. `stop` empties all but
-- `_event_thread_connectors`, which says whose thread has been started.
use delta_gateway_chat_woot.Base.{
  String, Bool, true, false, not, ◌||◌, List, [], Bool-cases, inl, inr, ◌≡◌, refl, sym, subst,
  arith, if◌then◌else◌,
}
use delta_gateway_chat_woot.Base.Dict.{Dict}
use delta_gateway_chat_woot.Errors.{ok}
use delta_gateway_chat_woot.Exec.{◌>>◌, pure, modify}
use delta_gateway_chat_woot.Exec.Kept.{
  Preserves, Leads, bind-Preserves, when-Preserves, bind-Leads, Preserves-Leads,
}
use delta_gateway_chat_woot.DeltaChat.Client.{Core, RuntimeAccount, Settings, Client, on_core}
use delta_gateway_chat_woot.DeltaChat.Client.Accounts.{
  launch, start, cleared, end_io, end_rpc, shut_down, stop,
}
use delta_gateway_chat_woot.DeltaChat.Client.Provision.{P, on_core-P}
use delta_gateway_chat_woot.DeltaChat.Client.Marks.{Covers, IsDeaf}
use delta_gateway_chat_woot.DeltaChat.Client.Launch.{launch-Leads, launch-IsDeaf}

if-true {ℓ} : {A : Type ℓ} (x y : A) (b : Bool) → b ≡ true → (if b then x else y) ≡ x
if-true x y b h = rw h

if-false {ℓ} : {A : Type ℓ} (x y : A) (b : Bool) → b ≡ false → (if b then x else y) ≡ y
if-false x y b h = rw h

module _ {S : Type 0} (core : Core S) (settings : Settings)
    (join_path : String → String → String) where
  start_lem :
      settings.enable_native_deltachat_channel ≡ true
      → (c : Client S) → c.rpc ≡ false
      → start core settings join_path c ≡ launch core settings join_path c
  unfolding start
  start_lem enabled c off =
      let running : (not settings.enable_native_deltachat_channel || c.rpc) ≡ false =
        ground arith in
      if-false (ok tt, c) (launch core settings join_path c)
        (not settings.enable_native_deltachat_channel || c.rpc) running

  start-Leads :
      settings.enable_native_deltachat_channel ≡ true
      → Leads
          (λ c. c.rpc ≡ false)
          (start core settings join_path)
          (P core settings join_path (Covers settings.delta_chat_accounts))
  start-Leads enabled c off a =
      subst (λ r. r.0 ≡ ok a → P core settings join_path (Covers settings.delta_chat_accounts) r.1)
        (sym (start_lem enabled c off)) (launch-Leads core settings join_path c tt a)

  start-IsDeaf :
      Preserves
        (P core settings join_path (IsDeaf settings.delta_chat_accounts))
        (start core settings join_path)
  unfolding start
  start-IsDeaf c h = elim (Bool-cases (not settings.enable_native_deltachat_channel || c.rpc)) [
    | inl running ↦ rw running h
    | inr stopped ↦ rw stopped (launch-IsDeaf core settings join_path c h)
  ]

  shut_down-Covers :
      Preserves
        (P core settings join_path (Covers settings.delta_chat_accounts))
        (shut_down core settings join_path)
  unfolding shut_down end_io end_rpc
  shut_down-Covers =
      let R : List String → List String → Dict RuntimeAccount → Type 0 =
        Covers settings.delta_chat_accounts in
      let Q : Client S → Type 0 = P core settings join_path R in
      let io = end_io core settings join_path in
      let rpc = end_rpc core settings join_path in
      bind-Preserves Q (modify (λ c. record c { stop_event = true })) (λ _. io >> rpc) (λ c p. p)
        (λ _.
          bind-Preserves Q io (λ _. rpc)
            (λ c p.
              when-Preserves Q c.deltachat (on_core core.stop_io)
                (on_core-P core settings join_path R core.stop_io) c p)
            (λ _ c p.
              when-Preserves Q c.rpc (on_core core.close)
                (on_core-P core settings join_path R core.close) c p))

  stop-Leads :
      settings.enable_native_deltachat_channel ≡ true
      → Leads
          (P core settings join_path (Covers settings.delta_chat_accounts))
          (stop core settings join_path)
          (P core settings join_path (IsDeaf settings.delta_chat_accounts))
  unfolding stop cleared
  stop-Leads enabled c h a =
      let R : List String → List String → Dict RuntimeAccount → Type 0 =
        Covers settings.delta_chat_accounts in
      let Q : Client S → Type 0 = P core settings join_path R in
      subst
        (λ m.
          (m c).0 ≡ ok a → P core settings join_path (IsDeaf settings.delta_chat_accounts) (m c).1)
        (sym (
          if-true (shut_down core settings join_path >> modify (cleared core settings join_path))
            (pure tt) settings.enable_native_deltachat_channel enabled))
        (bind-Leads Q Q (P core settings join_path (IsDeaf settings.delta_chat_accounts))
          (shut_down core settings join_path) (λ _. modify (cleared core settings join_path))
          (Preserves-Leads Q (shut_down core settings join_path) shut_down-Covers)
          (λ _ d k b e. (refl, k, tt)) c h a)

  -- With the native channel: when a client has been started and stopped, and both have returned, then
  -- another start starts no event thread, whatever the core does: `_event_threads`, in which stop
  -- leaves nothing, is empty after it. A thread that outlived stop's wait for it is not among these.
  pub start-stop_deaf :
      settings.enable_native_deltachat_channel ≡ true
      → (c : Client S) → c.rpc ≡ false
      → (start core settings join_path c).0 ≡ ok tt
      → (stop core settings join_path (start core settings join_path c).1).0 ≡ ok tt
      → (start core settings join_path
          (stop core settings join_path (start core settings join_path c).1).1).1.event_threads
        ≡ []
  start-stop_deaf enabled c off started stopped =
      (start-IsDeaf _ (stop-Leads enabled _ (start-Leads enabled c off tt started) tt stopped)).0
