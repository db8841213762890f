-- ===== src/Alias/RoundTrip.antt =====
-- The alias store of infrastructure/contact_alias_store.py: making and resolving aliases.
use delta_gateway_chat_woot.Base.{
  ℕ, ◌<◌, String, eq_iff, eq_refl, List, [], ◌∷◌, Option, some, All, ◌≡◌, ◌≢◌, refl, sym, ◌∙◌,
  arith,
}
use delta_gateway_chat_woot.Errors.{Result, ok}
use delta_gateway_chat_woot.World.{World, AliasRow}
use delta_gateway_chat_woot.World.Runs.{returned, unheard, unsent, query-Ran}
use delta_gateway_chat_woot.Alias.{
  upsert, real_id_of, touch, upsert_alias, touch_alias, get_or_create_alias, resolve_alias,
}

module _ (uuid : ℕ → String) where
  abbrev pub IsDrawn : ℕ → AliasRow → Type 0
  IsDrawn n r = (i : ℕ) × (i < n) × (r.alias_id ≡ uuid i)

  -- Every alias is one of the first `n` uuids, and no two rows share one.
  abbrev pub IsWellFormed : ℕ → List AliasRow → Type 0
  IsWellFormed n [] = Unit
  IsWellFormed n (r ∷ rows) =
      IsDrawn n r × All (λ q. q.alias_id ≢ r.alias_id) rows × IsWellFormed n rows

module _ (uuid : ℕ → String) (distinct : (i j : ℕ) → uuid i ≡ uuid j → i ≡ j) where
  -- An upsert answers with an alias that is there, or with the fresh one.
  upsert-ne :
      (n now : ℕ) (channel real_id : String) (rows : List AliasRow) (a : String)
      → a ≢ uuid n
      → All (λ q. q.alias_id ≢ a) rows
      → (upsert (uuid n) now channel real_id rows).0 ≢ a
  unfolding upsert
  upsert-ne n now channel real_id [] a f h = λ e. f (sym e)
  upsert-ne n now channel real_id (r ∷ rows) a f h =
      ground (arith, upsert-ne n now channel real_id rows a f h.1)

  pub fresh-ne : (n : ℕ) (r : AliasRow) → IsDrawn uuid n r → r.alias_id ≢ uuid n
  fresh-ne n r (i, lt, e) h = omega (arith, distinct i n (sym e ∙ h))

  real_id_of-upsert :
      (n now : ℕ) (channel real_id : String) (rows : List AliasRow)
      → IsWellFormed uuid n rows
      → real_id_of
          (upsert (uuid n) now channel real_id rows).0
          (upsert (uuid n) now channel real_id rows).1
        ≡ some real_id
  unfolding upsert real_id_of
  real_id_of-upsert n now channel real_id [] h = rw (eq_refl (uuid n))
  real_id_of-upsert n now channel real_id (r ∷ rows) h = ground (
    arith,
    eq_iff r.channel channel,
    eq_iff r.real_id real_id,
    eq_refl r.alias_id,
    eq_iff r.alias_id (upsert (uuid n) now channel real_id rows).0,
    upsert-ne n now channel real_id rows r.alias_id (fresh-ne n r h.0) h.1,
    real_id_of-upsert n now channel real_id rows h.2,
  )

-- What a table says of an alias, it says after any further use of the store.
pub data Later (rows : List AliasRow) : List AliasRow → Type 0 where
  now : Later rows rows
  after_upsert :
      {mid : List AliasRow} (fresh : String) (time : ℕ) (channel real_id : String)
      → Later rows mid
      → Later rows (upsert fresh time channel real_id mid).1
  after_touch :
      {mid : List AliasRow} (alias_id : String) (time : ℕ)
      → Later rows mid
      → Later rows (touch alias_id time mid)

upsert-keeps :
    (fresh : String) (time : ℕ) (channel real_id a x : String) (rows : List AliasRow)
    → real_id_of a rows ≡ some x
    → real_id_of a (upsert fresh time channel real_id rows).1 ≡ some x
unfolding upsert real_id_of
upsert-keeps fresh time channel real_id a x [] h = cc h
upsert-keeps fresh time channel real_id a x (r ∷ rows) h =
    ground (arith, upsert-keeps fresh time channel real_id a x rows)

touch-keeps :
    (b : String) (time : ℕ) (a : String) (rows : List AliasRow)
    → real_id_of a (touch b time rows) ≡ real_id_of a rows
unfolding touch real_id_of
touch-keeps b time a [] = refl
touch-keeps b time a (r ∷ rows) = ground (arith, touch-keeps b time a rows)

Later-keeps :
    (a x : String) {rows after : List AliasRow}
    → Later rows after
    → real_id_of a rows ≡ some x
    → real_id_of a after ≡ some x
Later-keeps a x now h = h
Later-keeps a x (after_upsert fresh time channel real_id l) h =
    upsert-keeps fresh time channel real_id a x _ (Later-keeps a x l h)
Later-keeps a x (after_touch b time l) h = touch-keeps b time a _ ∙ Later-keeps a x l h

module _ {Q : Type 0} (uuid : ℕ → String) (distinct : (i j : ℕ) → uuid i ≡ uuid j → i ≡ j) where
  created_at :
      (a x b : String) (v : World Q) (o : Result String × World Q)
      → o ≡ (ok b, v)
      → o.0 ≡ ok a
      → real_id_of b v.contact_aliases ≡ some x
      → real_id_of a o.1.contact_aliases ≡ some x
  created_at a x b v o e h k = cc

  created :
      (channel real_id a : String) (w : World Q)
      → IsWellFormed uuid w.uuids w.contact_aliases
      → (get_or_create_alias uuid channel real_id w).0 ≡ ok a
      → real_id_of a (get_or_create_alias uuid channel real_id w).1.contact_aliases ≡ some real_id
  unfolding get_or_create_alias upsert_alias
  created channel real_id a w wf h =
      elim (query-Ran ("operation" ∷ "channel" ∷ []) (upsert_alias uuid channel real_id) w) [
        | returned p fs e ↦
            created_at a real_id _ _ _ e h
              (real_id_of-upsert uuid distinct w.uuids w.now channel real_id w.contact_aliases wf)
        | unheard p fs x e ↦ cc (h, e)
        | unsent p fs x e ↦ cc (h, e)
      ]

  -- From a table whose aliases are different uuids of those that were drawn, with uuids that
  -- differ: the alias that a user got is resolved to that user, whatever else the store did in
  -- between and whatever faults the database has, if both calls return.
  pub resolve-get_or_create_alias :
      (channel real_id a : String) (w v : World Q) (o : Option String)
      → IsWellFormed uuid w.uuids w.contact_aliases
      → (get_or_create_alias uuid channel real_id w).0 ≡ ok a
      → Later (get_or_create_alias uuid channel real_id w).1.contact_aliases v.contact_aliases
      → (resolve_alias a v).0 ≡ ok o
      → o ≡ some real_id
  unfolding resolve_alias touch_alias
  resolve-get_or_create_alias channel real_id a w v o wf h l k =
      elim (query-Ran ("operation" ∷ "alias_id" ∷ []) (touch_alias a) v) [
        | returned p fs e ↦ cc (k, e, Later-keeps a real_id l (created channel real_id a w wf h))
        | unheard p fs x e ↦ cc (k, e)
        | unsent p fs x e ↦ cc (k, e)
      ]
