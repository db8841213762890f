-- ===== src/Identity/RoundTrip.antt =====
-- The identity store of infrastructure/identity_store.py: making and resolving actor ids.
use delta_gateway_chat_woot.Base.{
  ℕ, String, str_eq, append, eq_iff, eq_refl, true, Bool-cases, ◌&&◌, List, [], ◌∷◌, none, some,
  Option-cases, ◌≡◌, inl, inr, refl, ap, arith, if◌then◌else◌,
}
use delta_gateway_chat_woot.World.{World, IdentityRow}
use delta_gateway_chat_woot.Errors.{Result, ok}
use delta_gateway_chat_woot.World.Runs.{moved}
use delta_gateway_chat_woot.Identity.{
  actor_id_of, external_id_of, insert_mapping, get_or_create_actor_id, resolve_external_id,
}
use delta_gateway_chat_woot.Identity.Quiet.{new_actor, mapped, get_or_create_quiet, resolve_quiet}

-- `actor` names no user of the channel.
abbrev pub IsUnused : String → String → List IdentityRow → Type 0
IsUnused channel actor_id rows = external_id_of channel actor_id rows ≡ none

-- A new actor id is resolved to the address that it was inserted for.
pub external_id_of-insert :
    (channel external_id actor_id : String) (rows : List IdentityRow)
    → IsUnused channel actor_id rows
    → external_id_of channel actor_id (insert_mapping channel external_id actor_id rows)
      ≡ some external_id
unfolding external_id_of insert_mapping
external_id_of-insert channel external_id actor_id [] h = simp eq_refl
external_id_of-insert channel external_id actor_id (r ∷ rows) h = ground (
  arith,
  eq_iff r.channel channel,
  eq_iff r.external_id external_id,
  eq_iff r.actor_id actor_id,
  eq_refl actor_id,
  external_id_of-insert channel external_id actor_id rows,
)

-- The address now has that actor id, and every other address has the one that it had.
pub actor_id_of-insert :
    (channel external_id actor_id c x : String) (rows : List IdentityRow)
    → actor_id_of c x (insert_mapping channel external_id actor_id rows)
      ≡ (if str_eq channel c && str_eq external_id x then some actor_id else actor_id_of c x rows)
unfolding actor_id_of insert_mapping
actor_id_of-insert channel external_id actor_id c x [] = refl
actor_id_of-insert channel external_id actor_id c x (r ∷ rows) = ground (
  arith,
  eq_iff r.channel channel,
  eq_iff r.external_id external_id,
  eq_iff r.channel c,
  eq_iff r.external_id x,
  eq_iff channel c,
  eq_iff external_id x,
  actor_id_of-insert channel external_id actor_id c x rows,
)

-- The insert for a new address leaves the other actor ids as they are.
external_id_of-keeps :
    (channel external_id actor_id c b x : String) (rows : List IdentityRow)
    → actor_id_of channel external_id rows ≡ none
    → external_id_of c b rows ≡ some x
    → external_id_of c b (insert_mapping channel external_id actor_id rows) ≡ some x
unfolding actor_id_of external_id_of insert_mapping
external_id_of-keeps channel external_id actor_id c b x [] k h = cc h
external_id_of-keeps channel external_id actor_id c b x (r ∷ rows) k h =
    ground (arith, external_id_of-keeps channel external_id actor_id c b x rows)

-- Every actor id of the channel leads back to its address.
abbrev pub IsConsistent : String → List IdentityRow → Type 0
IsConsistent channel rows =
    (x a : String) → actor_id_of channel x rows ≡ some a → external_id_of channel a rows ≡ some x

pub insert-IsConsistent :
    (channel external_id actor_id : String) (rows : List IdentityRow)
    → actor_id_of channel external_id rows ≡ none
    → IsUnused channel actor_id rows
    → IsConsistent channel rows
    → IsConsistent channel (insert_mapping channel external_id actor_id rows)
insert-IsConsistent channel external_id actor_id rows new unused h x a e =
    elim (Bool-cases (str_eq external_id x)) [
      | inl same ↦ ground (
        arith,
        eq_iff external_id x,
        eq_refl channel,
        actor_id_of-insert channel external_id actor_id channel x rows,
        external_id_of-insert channel external_id actor_id rows unused,
      )
      | inr other ↦ external_id_of-keeps channel external_id actor_id channel a x rows new (
          h x a (
            ground (
              arith,
              eq_refl channel,
              actor_id_of-insert channel external_id actor_id channel x rows,
            )))
    ]

module _ {Q : Type 0} (uuid : ℕ → String) (channel external_id : String) where
  -- The run for an address that has no actor id, and for one that has.
  ends_new :
      (w : World Q)
      → w.faults ≡ []
      → actor_id_of channel external_id w.identity_mappings ≡ none
      → get_or_create_actor_id uuid channel external_id w
        ≡ (ok (new_actor uuid channel external_id w), mapped uuid channel external_id w)
  ends_new w quiet new = ground (arith, get_or_create_quiet uuid channel external_id w quiet)

  ends_old :
      (w : World Q) (a : String)
      → w.faults ≡ []
      → actor_id_of channel external_id w.identity_mappings ≡ some a
      → get_or_create_actor_id uuid channel external_id w ≡ (ok a, moved w true [])
  ends_old w a quiet old = ground (arith, get_or_create_quiet uuid channel external_id w quiet)

  resolves :
      (a : String) (v : World Q) (o : Result String × World Q)
      → o ≡ (ok a, v)
      → v.faults ≡ []
      → external_id_of channel a v.identity_mappings ≡ some external_id
      → IsConsistent channel v.identity_mappings
      → (b : String) × (o.0 ≡ ok b)
        × ((resolve_external_id channel b o.1).0 ≡ ok external_id)
        × IsConsistent channel o.1.identity_mappings
  resolves a v o e quiet h c =
      (a, ap (λ x. x.0) e, rw e (rw (resolve_quiet channel a v quiet) (rw h)), rw e c)

  -- On a database that answers, with no other task in between, with a table in which every actor id
  -- of the channel leads to its address, and with a next actor id that is unused: the actor id that
  -- an address gets is resolved to that address, and the table stays so.
  pub resolve-get_or_create_actor_id :
      (w : World Q)
      → w.faults ≡ []
      → IsConsistent channel w.identity_mappings
      → IsUnused channel (append channel (append "_" (uuid w.uuids))) w.identity_mappings
      → (a : String) × ((get_or_create_actor_id uuid channel external_id w).0 ≡ ok a)
        × ((resolve_external_id channel a (get_or_create_actor_id uuid channel external_id w).1).0
            ≡ ok external_id)
        × IsConsistent channel
            (get_or_create_actor_id uuid channel external_id w).1.identity_mappings
  resolve-get_or_create_actor_id w quiet consistent unused =
      elim (Option-cases (actor_id_of channel external_id w.identity_mappings)) [
        | inl new ↦
            resolves (new_actor uuid channel external_id w) (mapped uuid channel external_id w) _
              (ends_new w quiet new) refl
              (external_id_of-insert channel external_id _ w.identity_mappings unused)
              (insert-IsConsistent channel external_id _ w.identity_mappings new unused consistent)
        | inr (a, old) ↦
            resolves a (moved w true []) _ (ends_old w a quiet old) refl
              (consistent external_id a old) consistent
      ]
