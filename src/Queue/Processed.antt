-- ===== src/Queue/Processed.antt =====
-- The table of processed keys.
use delta_gateway_chat_woot.Base.{
  String, str_eq, eq_iff, List, [], ◌∷◌, Bool, ◌≡◌, refl, ap, ◌∙◌, arith, ◌||◌, if◌then◌else◌,
}
use delta_gateway_chat_woot.Errors.{ok}
use delta_gateway_chat_woot.World.{World}
use delta_gateway_chat_woot.World.Runs.{Ran, returned, unheard, unsent, moved, query-Ran}
use delta_gateway_chat_woot.Queue.{
  has_key, select_key, insert_key, is_already_processed, mark_as_processed,
}

-- the keys after an insert that does nothing on a conflict
abbrev pub add_key : String → List String → List String
add_key key keys = if has_key key keys then keys else key ∷ keys

has_key-cons :
    (key j : String) (keys : List String)
    → has_key j (key ∷ keys) ≡ (str_eq j key || has_key j keys)
unfolding has_key
has_key-cons key j keys = refl

pub has_key-add_key :
    (key j : String) (keys : List String)
    → has_key j (add_key key keys) ≡ (str_eq j key || has_key j keys)
has_key-add_key key j keys = ground (arith, has_key-cons key j keys, eq_iff j key)

module _ {Q : Type 0} (key : String) (w : World Q) where
  pub insert-keys : (insert_key key w).1.processed_keys ≡ add_key key w.processed_keys
  unfolding insert_key
  insert-keys = ground arith

  pub queue-insert : (insert_key key w).1.queue ≡ w.queue
  unfolding insert_key
  queue-insert = ground arith

  pub mark-Ran : Ran (insert_key key) w (mark_as_processed key w)
  unfolding mark_as_processed
  mark-Ran = query-Ran ("operation" ∷ "key" ∷ []) (insert_key key) w

  pub select-Ran : Ran (select_key key) w (is_already_processed key w)
  unfolding is_already_processed
  select-Ran = query-Ran ("operation" ∷ "key" ∷ []) (select_key key) w

module _ {Q : Type 0} (key : String) (w : World Q) where
  -- A mark that returns has added the key, and only it.
  pub keys-mark :
      (mark_as_processed key w).0 ≡ ok tt
      → (mark_as_processed key w).1.processed_keys ≡ add_key key w.processed_keys
  keys-mark h = elim (mark-Ran key w) [
    | returned p fs e ↦ ap (λ o. o.1.processed_keys) e ∙ insert-keys key (moved w p fs)
    | unheard p fs x e ↦ cc e
    | unsent p fs x e ↦ cc e
  ]

  -- A look that returns tells whether the key is there, and changes no table.
  pub is_already_processed-reads :
      (b : Bool) → (is_already_processed key w).0 ≡ ok b → b ≡ has_key key w.processed_keys
  unfolding select_key
  is_already_processed-reads b h = elim (select-Ran key w) [
    | returned p fs e ↦ ground arith
    | unheard p fs x e ↦ ground arith
    | unsent p fs x e ↦ ground arith
  ]

  pub keys-look : (is_already_processed key w).1.processed_keys ≡ w.processed_keys
  unfolding select_key
  keys-look = elim (select-Ran key w) [
    | returned p fs e ↦ ap (λ o. o.1.processed_keys) e
    | unheard p fs x e ↦ ap (λ o. o.1.processed_keys) e
    | unsent p fs x e ↦ ap (λ o. o.1.processed_keys) e
  ]

-- What a mark has written is what a later look reads, for every key, whatever faults either meets
-- and as long as both return and nothing else writes to the table.
pub look-mark :
    {Q : Type 0} (key j : String) (w v : World Q) (b : Bool)
    → (mark_as_processed key w).0 ≡ ok tt
    → v.processed_keys ≡ (mark_as_processed key w).1.processed_keys
    → (is_already_processed j v).0 ≡ ok b
    → b ≡ (str_eq j key || has_key j w.processed_keys)
look-mark key j w v b marked kept looked =
    is_already_processed-reads j v b looked
    ∙ ap (has_key j) (kept ∙ keys-mark key w marked)
    ∙ has_key-add_key key j w.processed_keys
