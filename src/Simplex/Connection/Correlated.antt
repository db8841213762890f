-- ===== src/Simplex/Connection/Correlated.antt =====
-- What the handling of a message does to the pending commands and their futures.
use delta_gateway_chat_woot.Base.{
  ℕ, ◌==◌, decimal, String, str_eq, eq_iff, true, List, [], ◌∷◌, Option, none, some, All, any,
  Option-cases, Bool-cases, inl, inr, ◌≡◌, refl, sym, ◌∙◌, arith,
}
use delta_gateway_chat_woot.Base.Dict
use delta_gateway_chat_woot.Base.Dict.{Dict}
use delta_gateway_chat_woot.Errors.{simplex_error, Result, ok, err}
use delta_gateway_chat_woot.Exec.{Exec, continue, ◌>>=◌, lift, for_each}
use delta_gateway_chat_woot.Values.{
  Value, null, arr, obj, nil, end, get_value, get_default, equals, iterate,
}
use delta_gateway_chat_woot.Simplex.Messages.{unwrap_event, in_set}
use delta_gateway_chat_woot.Simplex.Connection.{
  Connection, outcome, complete, drop_key, emit_message, handle_event, future_of, resolve, dispatch,
  fail_all,
}

-- Code that leaves the pending commands and their futures alone.
abbrev pub Keeps : {A : Type 0} → Exec Connection A → Type 0
Keeps m = (c : Connection) → ((m c).1.pending ≡ c.pending) × ((m c).1.futures ≡ c.futures)

continue-Keeps :
    {A B : Type 0} (r : Result A) (f : A → Exec Connection B)
    → ((a : A) → Keeps (f a))
    → Keeps (continue r f)
continue-Keeps (ok a) f h c = h a c
continue-Keeps (err e) f h c = (refl, refl)

bind-Keeps :
    {A B : Type 0} (m : Exec Connection A) (f : A → Exec Connection B)
    → Keeps m
    → ((a : A) → Keeps (f a))
    → Keeps (m >>= f)
bind-Keeps m f hm hf c =
    let (p, q) = continue-Keeps (m c).0 f hf (m c).1 in (p ∙ (hm c).0, q ∙ (hm c).1)

for_each-Keeps :
    (xs : List Value) (f : Value → Exec Connection (Unit {0}))
    → ((x : Value) → Keeps (f x))
    → Keeps (for_each xs f)
unfolding for_each
for_each-Keeps [] f h c = (refl, refl)
for_each-Keeps (x ∷ xs) f h c = bind-Keeps (f x) _ (h x) (λ _. for_each-Keeps xs f h) c

emit_message-Keeps : (entry : Value) → Keeps (emit_message entry)
unfolding emit_message
emit_message-Keeps entry c = ground arith

handle_event-Keeps : (payload : Value) → Keeps (handle_event payload)
unfolding handle_event
handle_event-Keeps payload =
    bind-Keeps (lift (get_value "type" payload)) _ (λ c. (refl, refl))
      (λ type. elim (Bool-cases (equals type "newChatItems")) [
        | inl items ↦ rw items (
            bind-Keeps (lift (get_default "chatItems" (arr nil) payload)) _ (λ c. (refl, refl))
              (λ given.
                bind-Keeps (lift (iterate given)) _ (λ c. (refl, refl))
                  (λ entries. for_each-Keeps entries emit_message emit_message-Keeps)))
        | inr others ↦ rw others (elim (Bool-cases (equals type "newChatItem")) [
          | inl one ↦ rw one (
              bind-Keeps (lift (get_default "chatItem" (obj end) payload)) _ (λ c. (refl, refl))
                emit_message-Keeps)
          | inr none_of_them ↦ rw none_of_them (
              bind-Keeps
                (lift (
                  in_set ("contactConnected" ∷ "contactRequest" ∷ "acceptingContactRequest" ∷ [])
                    type))
                _ (λ c. (refl, refl)) (λ known c. (refl, refl)))
        ])
      ])

pub resolve-none-Keeps : (corr_id resp : Value) → Keeps (resolve corr_id resp none)
unfolding resolve
resolve-none-Keeps corr_id resp =
    bind-Keeps (lift (unwrap_event resp)) _ (λ c. (refl, refl)) handle_event-Keeps

pub dispatch_lem :
    (m corr_id resp : Value) (o : Option ℕ) (c : Connection)
    → get_value "corrId" m ≡ ok corr_id
    → get_default "resp" (obj end) m ≡ ok resp
    → future_of corr_id c.pending ≡ ok o
    → dispatch m c ≡ resolve corr_id resp o c
unfolding dispatch
dispatch_lem m corr_id resp o c h i j = rw h (rw i (rw j refl))

pub told-Keeps : (m : Value) → get_value "corrId" m ≡ ok null → Keeps (dispatch m)
unfolding dispatch future_of
told-Keeps m h c = rw h (
    bind-Keeps (lift (get_default "resp" (obj end) m)) (λ resp. resolve null resp none)
      (λ c. (refl, refl)) (resolve-none-Keeps null) c)

-- A key is the number's decimal text.
abbrev pub Paired : Dict ℕ → Type 0
Paired = All (λ e. e.0 ≡ decimal e.1)

pub put-Paired : (f : ℕ) (d : Dict ℕ) → Paired d → Paired (Dict.put (decimal f) f d)
unfolding Dict.put
put-Paired f [] h = (refl, tt)
put-Paired f ((k, g) ∷ d) h = elim (Bool-cases (str_eq k (decimal f))) [
  | inl same ↦ rw same (refl, h.1)
  | inr differs ↦ rw differs (h.0, put-Paired f d h.1)
]

pub drop_key-Paired : (k : String) (d : Dict ℕ) → Paired d → Paired (drop_key k d)
unfolding drop_key
drop_key-Paired k [] h = tt
drop_key-Paired k ((j, f) ∷ d) h = elim (Bool-cases (str_eq j k)) [
  | inl same ↦ rw same h.1
  | inr differs ↦ rw differs (h.0, drop_key-Paired k d h.1)
]

pub get-Paired :
    (k : String) (f : ℕ) (d : Dict ℕ) → Paired d → Dict.get k d ≡ some f → k ≡ decimal f
unfolding Dict.get
get-Paired k f [] h e = cc e
get-Paired k f ((j, g) ∷ d) h e = elim (Bool-cases (str_eq j k)) [
  | inl same ↦
      let at : j ≡ k = (eq_iff j k).0 same in
      let found : some g ≡ some f = rw same at e in cc (at, h.0, found)
  | inr differs ↦ get-Paired k f d h.1 (rw differs at e)
]

module _ (answer : String → Value) where
  -- The futures that have a result have that of their own command.
  abbrev pub IsOwn : List (ℕ × Result Value) → Type 0
  IsOwn = All (λ e. (v : Value) → e.1 ≡ ok v → v ≡ answer (decimal e.0))

  pub outcome-own :
      (n : ℕ) (done : List (ℕ × Result Value)) (v : Value)
      → IsOwn done
      → outcome n done ≡ some (ok v)
      → v ≡ answer (decimal n)
  unfolding outcome
  outcome-own n [] v h e = cc e
  outcome-own n ((g, r) ∷ done) v h e = elim (Bool-cases (g == n)) [
    | inl same ↦
        let at : g ≡ n = ground arith in
        rw (sym at) (h.0 v (let q : some r ≡ some (ok v) = rw same at e in cc q))
    | inr differs ↦ outcome-own n done v h.1 (rw differs at e)
  ]

  pub complete-IsOwn :
      (f : ℕ) (r : Result Value) (c : Connection)
      → ((v : Value) → r ≡ ok v → v ≡ answer (decimal f))
      → IsOwn c.futures
      → IsOwn (complete f r c).futures
  unfolding complete
  complete-IsOwn f r c own h = elim (Bool-cases (any (λ g. g == f) c.cancelled)) [
    | inl over ↦ rw (over, complete) h
    | inr waits ↦ elim (Option-cases (outcome f c.futures)) [
      | inl open_yet ↦ rw (waits, open_yet, complete) (own, h)
      | inr (q, done) ↦ rw (waits, done, complete) h
    ]
  ]

  pub fail_all-IsOwn :
      (d : Dict ℕ) (c : Connection) → IsOwn c.futures → IsOwn (fail_all d c).futures
  unfolding fail_all
  fail_all-IsOwn [] c h = h
  fail_all-IsOwn ((k, f) ∷ d) c h =
      fail_all-IsOwn d (complete f (err (simplex_error true)) c)
        (complete-IsOwn f (err (simplex_error true)) c (λ v e. cc e) h)

  pub complete-pending :
      (f : ℕ) (r : Result Value) (c : Connection) → (complete f r c).pending ≡ c.pending
  unfolding complete
  complete-pending f r c = ground arith

  pub fail_all-pending : (d : Dict ℕ) (c : Connection) → (fail_all d c).pending ≡ []
  unfolding fail_all
  fail_all-pending [] c = refl
  fail_all-pending (e ∷ d) c = fail_all-pending d _

  -- What a step of the connection alone has to keep.
  abbrev pub IsSound : Connection → Type 0
  IsSound c = Paired c.pending × IsOwn c.futures

  pub Keeps-IsSound :
      {A : Type 0} (m : Exec Connection A) (c : Connection) → Keeps m → IsSound c → IsSound (m c).1
  Keeps-IsSound m c k h = (rw (k c).0 h.0, rw (k c).1 h.1)
