-- ===== src/Exec/Laws.antt =====
-- A run followed by a pure step.
use delta_gateway_chat_woot.Base.{◌≡◌, refl}
use delta_gateway_chat_woot.Errors.{Result, ok, err}
use delta_gateway_chat_woot.Exec.{Exec, pure, continue, ◌>>=◌}

module _ {S A B : Type 0} (f : A → B) where
  continue_state : (r : Result A) (s : S) → (continue r (λ a. pure (f a)) s).1 ≡ s
  continue_state (ok a) s = refl
  continue_state (err e) s = refl

  -- The step changes no state.
  pub state-bind_pure : (m : Exec S A) (s : S) → ((m >>= λ a. pure (f a)) s).1 ≡ (m s).1
  state-bind_pure m s = continue_state (m s).0 (m s).1
