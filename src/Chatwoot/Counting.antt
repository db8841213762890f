-- ===== src/Chatwoot/Counting.antt =====
-- A count of the messages that are posted to the server: composing runs that post none.
use delta_gateway_chat_woot.Base.{
  ℕ, ◌+◌, ◌≤◌, Bool, false, is_some, ◌≡◌, refl, ap, ◌∙◌, arith, if◌then◌else◌,
}
use delta_gateway_chat_woot.Errors.{Result, ok, err}
use delta_gateway_chat_woot.Exec.{Exec, ◌>>=◌, continue, lift, resume}
use delta_gateway_chat_woot.Values.{Value, obj, find}
use delta_gateway_chat_woot.Chatwoot.Http.{
  Request, Reply, Body, json, ask, exchange, translate, parse_json, handle_response_errors,
}

-- A request that posts a message: no other has the key "message_type".
abbrev pub is_message : {B : Type 0} → Body B → Bool
is_message (json (obj m)) = is_some (find "message_type" m)
is_message _ = false

abbrev pub weight : {B : Type 0} → Request B → ℕ
weight r = if is_message r.body then 1 else 0

-- The server with a count of the messages that were posted to it.
abbrev pub counted : {S B : Type 0} → (Request B → Exec S Reply) → Request B → Exec (ℕ × S) Reply
counted http r (n, s) = let (reply, s') = http r s in (reply, (n + weight r, s'))

-- A run that posts `k` messages, whatever it returns.
abbrev pub Posts : {S A : Type 0} → ℕ → Exec (ℕ × S) A → Type 0
Posts {S = S} k m = (n : ℕ) (s : S) → (m (n, s)).1.0 ≡ n + k

-- A run that posts one message if it returns, and at most one if it raises.
abbrev pub PostsOne : {S : Type 0} → Exec (ℕ × S) (Unit {0}) → Type 0
PostsOne {S = S} m =
    (n : ℕ) (s : S) → ((m (n, s)).1.0 ≤ n + 1) × ((m (n, s)).0 ≡ ok tt → (m (n, s)).1.0 ≡ n + 1)

module _ {S : Type 0} where
  pub lift-Posts : {A : Type 0} (r : Result A) → Posts {S = S} 0 (lift r)
  lift-Posts r n s = omega arith

  continue-Posts :
      {A B : Type 0} (r : Result A) (f : A → Exec (ℕ × S) B)
      → ((a : A) → Posts 0 (f a))
      → Posts 0 (continue r f)
  continue-Posts (ok a) f k n s = k a n s
  continue-Posts (err e) f k n s = omega arith

  pub bind-Posts :
      {A B : Type 0} (k : ℕ) (m : Exec (ℕ × S) A) (f : A → Exec (ℕ × S) B)
      → Posts k m
      → ((a : A) → Posts 0 (f a))
      → Posts k (m >>= f)
  bind-Posts k m f a b n s =
      let (r, (n', s')) = m (n, s) in
      continue-Posts r f b n' s' ∙ ap (λ x. x + 0) (a n s) ∙ omega arith

  continue-PostsOne :
      {A : Type 0} (r : Result A) (f : A → Exec (ℕ × S) (Unit {0}))
      → ((a : A) → PostsOne (f a))
      → PostsOne (continue r f)
  continue-PostsOne (ok a) f k n s = k a n s
  continue-PostsOne (err e) f k n s = (omega arith, λ h. cc h)

  pub bind-PostsOne :
      {A : Type 0} (m : Exec (ℕ × S) A) (f : A → Exec (ℕ × S) (Unit {0}))
      → Posts 0 m
      → ((a : A) → PostsOne (f a))
      → PostsOne (m >>= f)
  bind-PostsOne m f a b n s =
      let (r, (n', s')) = m (n, s) in
      let (below, exact) = continue-PostsOne r f b n' s' in
      (omega (arith, below, a n s), λ h. exact h ∙ omega (arith, a n s))

  pub Posts-PostsOne : (m : Exec (ℕ × S) (Unit {0})) → Posts 1 m → PostsOne m
  Posts-PostsOne m a n s = (omega (arith, a n s), λ h. a n s)

  resume-Posts : {A : Type 0} (r : Result A) → Posts {S = S} 0 (resume r (λ e. lift (translate e)))
  resume-Posts (ok a) n s = omega arith
  resume-Posts (err e) n s = omega arith

module _ {S B : Type 0} (http : Request B → Exec S Reply) where
  counted-Posts : (r : Request B) → Posts (weight r) (counted http r)
  counted-Posts r n s = refl

  exchange-Posts : (r : Request B) → Posts (weight r) (exchange (counted http) r)
  unfolding exchange
  exchange-Posts r n s =
      resume-Posts _ _ _
      ∙ ap (λ x. x + 0)
          (bind-Posts (weight r) (counted http r) _ (counted-Posts r)
            (λ reply. bind-Posts 0 (lift (parse_json reply)) _ (lift-Posts (parse_json reply)) (λ v.
              bind-Posts 0 (lift (handle_response_errors reply)) _
                (lift-Posts (handle_response_errors reply)) (λ u. lift-Posts (ok v))))
            n s)
      ∙ omega arith

  pub ask-Posts :
      {A : Type 0} (r : Request B) (answer : Value → Result A)
      → Posts (weight r) (ask (counted http) r answer)
  unfolding ask
  ask-Posts r answer =
      bind-Posts (weight r) (exchange (counted http) r) _ (exchange-Posts r)
        (λ v. lift-Posts (answer v))
