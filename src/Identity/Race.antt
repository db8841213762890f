-- ===== src/Identity/Race.antt =====
-- Two tasks that make an actor id for one address at the same time.
use delta_gateway_chat_woot.Base.{
  ℕ, String, eq_iff, eq_refl, true, List, [], ◌∷◌, none, ◌≡◌, ◌≢◌, refl, sym, ap, ◌∙◌, arith,
}
use delta_gateway_chat_woot.Errors.{ok, err, value_error}
use delta_gateway_chat_woot.World.{World, IdentityRow}
use delta_gateway_chat_woot.Identity.{
  actor_id_of, external_id_of, insert_mapping, create_actor_id, resolve_external_id,
}
use delta_gateway_chat_woot.Identity.Quiet.{new_actor, mapped, create_quiet, resolve_quiet}
use delta_gateway_chat_woot.Identity.RoundTrip.{IsUnused}

overwritten :
    (channel external_id a b : String) (rows : List IdentityRow)
    → actor_id_of channel external_id rows ≡ none
    → IsUnused channel a rows
    → a ≢ b
    → external_id_of channel a
        (insert_mapping channel external_id b (insert_mapping channel external_id a rows))
      ≡ none
unfolding actor_id_of external_id_of insert_mapping
overwritten channel external_id a b [] new unused h =
    ground (arith, eq_refl channel, eq_refl external_id, eq_iff b a)
overwritten channel external_id a b (r ∷ rows) new unused h =
    ground (arith, overwritten channel external_id a b rows)

module _ {Q : Type 0} (uuid : ℕ → String) (channel external_id : String) where
  abbrev create : World Q → World Q
  create w = (create_actor_id uuid channel external_id w).1

  -- On a database that answers, with two unused actor ids that differ: two tasks have both looked
  -- an address up and found no row. Both then create an actor id and return it: the second insert
  -- overwrites the first, so the first id is resolved by nobody.
  pub create_actor_id-race :
      (w : World Q)
      → w.faults ≡ []
      → w.pool ≡ true
      → actor_id_of channel external_id w.identity_mappings ≡ none
      → IsUnused channel (new_actor uuid channel external_id w) w.identity_mappings
      → new_actor uuid channel external_id w ≢ new_actor uuid channel external_id (create w)
      → ((create_actor_id uuid channel external_id w).0 ≡ ok (new_actor uuid channel external_id w))
        × ((create_actor_id uuid channel external_id (create w)).0
            ≡ ok (new_actor uuid channel external_id (create w)))
        × ((resolve_external_id channel
              (new_actor uuid channel external_id w)
              (create (create w))).0
            ≡ err value_error)
  create_actor_id-race w quiet pooled new unused distinct =
      let first = create_quiet uuid channel external_id w quiet pooled in
      let v = mapped uuid channel external_id w in
      let second = create_quiet uuid channel external_id v refl refl in
      let same : create w ≡ v = ap (λ o. o.1) first in
      let again : create v ≡ mapped uuid channel external_id v = ap (λ o. o.1) second in
      let differ : new_actor uuid channel external_id w ≢ new_actor uuid channel external_id v =
        λ e. distinct (e ∙ ap (new_actor uuid channel external_id) (sym same)) in
      (
        ap (λ o. o.0) first,
        rw same (ap (λ o. o.0) second),
        rw same (
            rw again (
              rw (resolve_quiet channel _ (mapped uuid channel external_id v) refl)
                (rw (overwritten channel external_id _ _ w.identity_mappings new unused differ)))),
      )
