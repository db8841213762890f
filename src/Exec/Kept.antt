-- ===== src/Exec/Kept.antt =====
-- What a method keeps of the state however it ends, and what it leads to where it returns.
use delta_gateway_chat_woot.Base.{Bool, true, false, if◌then◌else◌, ◌≡◌, refl, ap}
use delta_gateway_chat_woot.Errors.{Result, ok, err}
use delta_gateway_chat_woot.Exec.{Exec, continue, ◌>>=◌, when}

module _ {S : Type 0} where
  abbrev pub Preserves : {A : Type 0} → (S → Type 0) → Exec S A → Type 0
  Preserves P m = (s : S) → P s → P (m s).1

  abbrev pub Leads : {A : Type 0} → (S → Type 0) → Exec S A → (S → Type 0) → Type 0
  Leads {A} P m Q = (s : S) → P s → (a : A) → (m s).0 ≡ ok a → Q (m s).1

  continue-Preserves :
      {A B : Type 0} (P : S → Type 0) (r : Result A) (f : A → Exec S B)
      → ((a : A) → Preserves P (f a))
      → Preserves P (continue r f)
  continue-Preserves P (ok a) f h s p = h a s p
  continue-Preserves P (err e) f h s p = p

  pub bind-Preserves :
      {A B : Type 0} (P : S → Type 0) (m : Exec S A) (f : A → Exec S B)
      → Preserves P m
      → ((a : A) → Preserves P (f a))
      → Preserves P (m >>= f)
  bind-Preserves P m f hm hf s p = continue-Preserves P (m s).0 f hf (m s).1 (hm s p)

  pub when-Preserves :
      (P : S → Type 0) (b : Bool) (m : Exec S (Unit {0})) → Preserves P m → Preserves P (when b m)
  when-Preserves P true m h s p = h s p
  when-Preserves P false m h s p = p

  pub if-Preserves :
      {A : Type 0} (P : S → Type 0) (b : Bool) (m n : Exec S A)
      → Preserves P m
      → Preserves P n
      → Preserves P (if b then m else n)
  if-Preserves P true m n h k s p = h s p
  if-Preserves P false m n h k s p = k s p

  continue-Leads :
      {A B : Type 0} (P Q : S → Type 0) (r : Result A) (f : A → Exec S B) (s : S)
      → ((a : A) → r ≡ ok a → P s)
      → ((a : A) → Leads P (f a) Q)
      → (b : B) → (continue r f s).0 ≡ ok b
      → Q (continue r f s).1
  continue-Leads P Q (ok a) f s p h b e = h a s (p a refl) b e
  continue-Leads P Q (err x) f s p h b e = cc e

  pub bind-Leads :
      {A B : Type 0} (P R Q : S → Type 0) (m : Exec S A) (f : A → Exec S B)
      → Leads P m R
      → ((a : A) → Leads R (f a) Q)
      → Leads P (m >>= f) Q
  bind-Leads P R Q m f hm hf s p b e = continue-Leads R Q (m s).0 f (m s).1 (hm s p) hf b e

  pub Preserves-Leads : {A : Type 0} (P : S → Type 0) (m : Exec S A) → Preserves P m → Leads P m P
  Preserves-Leads P m h s p a e = h s p

  -- The property of a first step is kept by the rest.
  pub bind-Leads_kept :
      {A B : Type 0} (P Q : S → Type 0) (m : Exec S A) (f : A → Exec S B)
      → Leads P m Q
      → ((a : A) → Preserves Q (f a))
      → Leads P (m >>= f) Q
  bind-Leads_kept P Q m f hm hf = bind-Leads P Q Q m f hm (λ a. Preserves-Leads Q (f a) (hf a))

  continue_returned :
      {A B : Type 0} (r : Result A) (f : A → Exec S B) (s t : S) (b : B)
      → continue r f s ≡ (ok b, t)
      → (a : A) × (r ≡ ok a) × (f a s ≡ (ok b, t))
  continue_returned (ok a) f s t b h = (a, refl, h)
  continue_returned (err e) f s t b h = let failed : err e ≡ ok b = ap (λ o. o.0) h in cc failed

  -- Code that returns has returned at each of its steps.
  pub bind_returned :
      {A B : Type 0} (m : Exec S A) (f : A → Exec S B) (s t : S) (b : B)
      → (m >>= f) s ≡ (ok b, t)
      → (a : A) × (m s ≡ (ok a, (m s).1)) × (f a (m s).1 ≡ (ok b, t))
  bind_returned m f s t b h =
      let (a, is_a, rest) = continue_returned (m s).0 f (m s).1 t b h in
      (a, ap (λ r. (r, (m s).1)) is_a, rest)
