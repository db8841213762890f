-- ===== src/Exec.antt =====
-- Methods that change a state and may raise: what was written before a raise stays written.
pub mod Laws
pub mod Kept
use delta_gateway_chat_woot.Base.{Bool, List, [], ◌∷◌, if◌then◌else◌}
use delta_gateway_chat_woot.Errors.{Exc, Result, ok, err}

abbrev pub Exec {ℓ} : Type ℓ → Type ℓ → Type ℓ
Exec S A = S → Result A × S

module _ {ℓ} {S A : Type ℓ} where
  abbrev pub pure : A → Exec S A
  pure a s = (ok a, s)

  abbrev pub raise : Exc → Exec S A
  raise e s = (err e, s)

  -- a value that is computed, or not, without the state
  abbrev pub lift : Result A → Exec S A
  lift r s = (r, s)

  abbrev pub gets : (S → A) → Exec S A
  gets f s = (ok (f s), s)

  abbrev pub resume : Result A → (Exc → Exec S A) → Exec S A
  resume (ok a) h s = (ok a, s)
  resume (err e) h s = h e s

  -- try: m except Exception as e: h(e)
  abbrev pub attempt : Exec S A → (Exc → Exec S A) → Exec S A
  attempt m h s = let (r, s') = m s in resume r h s'

module _ {ℓ} {S A B : Type ℓ} where
  abbrev pub continue : Result A → (A → Exec S B) → Exec S B
  continue (ok a) f s = f a s
  continue (err e) f s = (err e, s)

  infixl 10 ◌>>=◌ ◌>>◌
  abbrev pub ◌>>=◌ : Exec S A → (A → Exec S B) → Exec S B
  ◌>>=◌ m f s = let (r, s') = m s in continue r f s'

  abbrev pub ◌>>◌ : Exec S A → Exec S B → Exec S B
  m >> n = m >>= λ _. n

module _ {S : Type 0} where
  -- an assignment
  abbrev pub modify : (S → S) → Exec S (Unit {0})
  modify f s = (ok tt, f s)

  -- if b: m
  abbrev pub when : Bool → Exec S (Unit {0}) → Exec S (Unit {0})
  when b m = if b then m else pure tt

  -- for x in xs: f(x), with the results that are kept
  unfoldable pub for_each {ℓ} : {A : Type ℓ} → List A → (A → Exec S (Unit {0})) → Exec S (Unit {0})
  for_each [] f = pure tt
  for_each (x ∷ xs) f = f x >> for_each xs f
