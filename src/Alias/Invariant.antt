-- ===== src/Alias/Invariant.antt =====
-- The alias store of infrastructure/contact_alias_store.py: the rows of its table.
use delta_gateway_chat_woot.Base.{
  ℕ, ◌+◌, String, str_eq, Bool-cases, ◌&&◌, List, [], ◌∷◌, All, ◌≡◌, ◌≢◌, inl, inr, refl, sym,
  arith,
}
use delta_gateway_chat_woot.World.{World, AliasRow}
use delta_gateway_chat_woot.World.Runs.{returned, unheard, unsent, query-Ran}
use delta_gateway_chat_woot.Alias.{
  upsert, touch, upsert_alias, touch_alias, get_or_create_alias, resolve_alias,
}
use delta_gateway_chat_woot.Alias.RoundTrip.{IsDrawn, IsWellFormed, fresh-ne}

module _ (uuid : ℕ → String) where
  IsDrawn-suc : (n : ℕ) (r : AliasRow) → IsDrawn uuid n r → IsDrawn uuid (n + 1) r
  IsDrawn-suc n r (i, lt, e) = (i, omega arith, e)

  IsWellFormed-suc :
      (n : ℕ) (rows : List AliasRow) → IsWellFormed uuid n rows → IsWellFormed uuid (n + 1) rows
  IsWellFormed-suc n [] h = tt
  IsWellFormed-suc n (r ∷ rows) (d, a, h) = (IsDrawn-suc n r d, a, IsWellFormed-suc n rows h)

upsert-All_ne :
    (fresh : String) (now : ℕ) (channel real_id a : String) (rows : List AliasRow)
    → fresh ≢ a
    → All (λ q. q.alias_id ≢ a) rows
    → All (λ q. q.alias_id ≢ a) (upsert fresh now channel real_id rows).1
unfolding upsert
upsert-All_ne fresh now channel real_id a [] f h = (f, tt)
upsert-All_ne fresh now channel real_id a (r ∷ rows) f (k, h) =
    elim (Bool-cases (str_eq r.channel channel && str_eq r.real_id real_id)) [
      | inl same ↦ rw same (k, h)
      | inr other ↦ rw other (k, upsert-All_ne fresh now channel real_id a rows f h)
    ]

module _ (uuid : ℕ → String) (distinct : (i j : ℕ) → uuid i ≡ uuid j → i ≡ j) where
  upsert-IsWellFormed :
      (n now : ℕ) (channel real_id : String) (rows : List AliasRow)
      → IsWellFormed uuid n rows
      → IsWellFormed uuid (n + 1) (upsert (uuid n) now channel real_id rows).1
  unfolding upsert
  upsert-IsWellFormed n now channel real_id [] h = ((n, omega arith, refl), tt, tt)
  upsert-IsWellFormed n now channel real_id (r ∷ rows) (d, a, h) =
      elim (Bool-cases (str_eq r.channel channel && str_eq r.real_id real_id)) [
        | inl same ↦ rw same (IsDrawn-suc uuid n r d, a, IsWellFormed-suc uuid n rows h)
        | inr other ↦ rw other (
          IsDrawn-suc uuid n r d,
          upsert-All_ne (uuid n) now channel real_id r.alias_id rows
              (λ e. fresh-ne uuid distinct n r d (sym e)) a,
          upsert-IsWellFormed n now channel real_id rows h,
        )
      ]

  get_or_create_alias-IsWellFormed :
      {Q : Type 0} (channel real_id : String) (w : World Q)
      → IsWellFormed uuid w.uuids w.contact_aliases
      → IsWellFormed uuid
          (get_or_create_alias uuid channel real_id w).1.uuids
          (get_or_create_alias uuid channel real_id w).1.contact_aliases
  unfolding get_or_create_alias upsert_alias
  get_or_create_alias-IsWellFormed channel real_id w wf =
      elim (query-Ran ("operation" ∷ "channel" ∷ []) (upsert_alias uuid channel real_id) w) [
        | returned p fs e ↦
            rw e (upsert-IsWellFormed w.uuids w.now channel real_id w.contact_aliases wf)
        | unheard p fs x e ↦
            rw e (upsert-IsWellFormed w.uuids w.now channel real_id w.contact_aliases wf)
        | unsent p fs x e ↦ rw e wf
      ]

touch-All_ne :
    (b : String) (now : ℕ) (a : String) (rows : List AliasRow)
    → All (λ q. q.alias_id ≢ a) rows
    → All (λ q. q.alias_id ≢ a) (touch b now rows)
unfolding touch
touch-All_ne b now a [] h = tt
touch-All_ne b now a (r ∷ rows) (k, h) = elim (Bool-cases (str_eq r.alias_id b)) [
  | inl same ↦ rw same (k, touch-All_ne b now a rows h)
  | inr other ↦ rw other (k, touch-All_ne b now a rows h)
]

touch-IsWellFormed :
    (uuid : ℕ → String) (n : ℕ) (b : String) (now : ℕ) (rows : List AliasRow)
    → IsWellFormed uuid n rows
    → IsWellFormed uuid n (touch b now rows)
unfolding touch
touch-IsWellFormed uuid n b now [] h = tt
touch-IsWellFormed uuid n b now (r ∷ rows) (d, a, h) = elim (Bool-cases (str_eq r.alias_id b)) [
  | inl same ↦
      rw same (d, touch-All_ne b now r.alias_id rows a, touch-IsWellFormed uuid n b now rows h)
  | inr other ↦
      rw other (d, touch-All_ne b now r.alias_id rows a, touch-IsWellFormed uuid n b now rows h)
]

resolve_alias-IsWellFormed :
    {Q : Type 0} (uuid : ℕ → String) (alias_id : String) (w : World Q)
    → IsWellFormed uuid w.uuids w.contact_aliases
    → IsWellFormed uuid
        (resolve_alias alias_id w).1.uuids
        (resolve_alias alias_id w).1.contact_aliases
unfolding resolve_alias touch_alias
resolve_alias-IsWellFormed uuid alias_id w wf =
    let touched = touch-IsWellFormed uuid w.uuids alias_id w.now w.contact_aliases wf in
    elim (query-Ran ("operation" ∷ "alias_id" ∷ []) (touch_alias alias_id) w) [
      | returned p fs e ↦ rw e touched
      | unheard p fs x e ↦ rw e touched
      | unsent p fs x e ↦ rw e wf
    ]

-- A use of the store: an alias is made or found for a user, or is resolved.
pub data Use : Type 0 where
  get_or_create : (channel real_id : String) → Use
  resolve : (alias_id : String) → Use

module _ {Q : Type 0} (uuid : ℕ → String) where
  abbrev pub after_use : Use → World Q → World Q
  after_use (get_or_create channel real_id) w = (get_or_create_alias uuid channel real_id w).1
  after_use (resolve alias_id) w = (resolve_alias alias_id w).1

  -- The uses one after another, however each of them ends.
  abbrev pub after_uses : List Use → World Q → World Q
  after_uses [] w = w
  after_uses (u ∷ us) w = after_uses us (after_use u w)

  after_use-IsWellFormed :
      ((i j : ℕ) → uuid i ≡ uuid j → i ≡ j)
      → (u : Use) (w : World Q) → IsWellFormed uuid w.uuids w.contact_aliases
      → IsWellFormed uuid (after_use u w).uuids (after_use u w).contact_aliases
  after_use-IsWellFormed distinct (get_or_create channel real_id) w wf =
      get_or_create_alias-IsWellFormed uuid distinct channel real_id w wf
  after_use-IsWellFormed distinct (resolve alias_id) w wf =
      resolve_alias-IsWellFormed uuid alias_id w wf

  -- With uuids that differ: from a table whose aliases are different uuids of those that were
  -- drawn, any sequence of uses of the store, of both kinds, leads to such a table, whatever faults
  -- the database has and however each use ends.
  pub after_uses-IsWellFormed :
      ((i j : ℕ) → uuid i ≡ uuid j → i ≡ j)
      → (us : List Use) (w : World Q) → IsWellFormed uuid w.uuids w.contact_aliases
      → IsWellFormed uuid (after_uses us w).uuids (after_uses us w).contact_aliases
  after_uses-IsWellFormed distinct [] w wf = wf
  after_uses-IsWellFormed distinct (u ∷ us) w wf =
      after_uses-IsWellFormed distinct us (after_use u w) (after_use-IsWellFormed distinct u w wf)
