-- ===== src/DeltaChat/Client/Events/Turns.antt =====
-- What a turn of an account's event loop never does.
use delta_gateway_chat_woot.Base.{
  ℕ, String, str_eq, Bool, true, false, not, Bool-cases, inl, inr, ◌≡◌, refl,
}
use delta_gateway_chat_woot.Errors.{Result, ok, err}
use delta_gateway_chat_woot.Exec.{Exec, resume}
use delta_gateway_chat_woot.Values.{Members}
use delta_gateway_chat_woot.DeltaChat.Attachments.{Files}
use delta_gateway_chat_woot.DeltaChat.Client.{RuntimeAccount}
use delta_gateway_chat_woot.DeltaChat.Client.Events.{
  EventCore, take_message, skip, handle_kind, handle_event, after_event, turn,
}

module _ {S : Type 0} (core : EventCore S) (files : Files) (account : RuntimeAccount)
    (handler : Members → Exec S (Unit {0})) where
  caught :
      (r : Result (Unit {0})) (s : S) → (resume r (skip core files account handler) s).0 ≡ ok tt
  unfolding skip
  caught (ok u) s = refl
  caught (err e) s = refl

  handle_event-returns :
      (registered : Bool) (kind : String) (msg_id : ℕ) (s : S)
      → (handle_event core files account handler registered kind msg_id s).0 ≡ ok tt
  unfolding handle_event handle_kind
  handle_event-returns registered kind msg_id s = elim (Bool-cases (core.stop_event s)) [
    | inl stopped ↦ rw stopped refl
    | inr on ↦ rw on (elim (Bool-cases (str_eq kind "IncomingMsg")) [
      | inr other ↦ rw other refl
      | inl incoming ↦ rw incoming (elim (Bool-cases registered) [
        | inr nobody ↦ rw nobody refl
        | inl somebody ↦ rw somebody (caught (take_message core files account handler msg_id s).0 _)
      ])
    ])
  ]

  after_event-returns :
      (registered : Bool) (r : Result (String × ℕ)) (s : S)
      → (go : Bool) × ((after_event core files account handler registered r s).0 ≡ ok go)
  unfolding after_event
  after_event-returns registered (ok (kind, msg_id)) s =
      rw (handle_event-returns registered kind msg_id s) (true, refl)
  after_event-returns registered (err e) s = (not (core.stop_event s), refl)

  -- A turn of the loop never raises, whatever the core and the handler do: no message ends the thread.
  pub turn-returns :
      (registered : Bool) (s : S)
      → (go : Bool) × ((turn core files account handler registered s).0 ≡ ok go)
  unfolding turn
  turn-returns registered s = elim (Bool-cases (core.stop_event s)) [
    | inl stopped ↦ rw stopped (false, refl)
    | inr on ↦
        rw on (after_event-returns registered (core.wait_for_event s).0 (core.wait_for_event s).1)
  ]
