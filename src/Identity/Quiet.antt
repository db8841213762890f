-- ===== src/Identity/Quiet.antt =====
-- The identity store on a database that answers.
use delta_gateway_chat_woot.Base.{
  ℕ, ◌+◌, String, append, Bool, true, false, [], Option, none, some, ◌≡◌, ap, ◌∙◌, arith,
}
use delta_gateway_chat_woot.Errors.{Result, ok, err, value_error}
use delta_gateway_chat_woot.World.{
  World, get_pg_pool, init_pg_pool, statement, run_under, translating,
}
use delta_gateway_chat_woot.World.Runs.{moved}
use delta_gateway_chat_woot.Identity.{
  actor_id_of, external_id_of, insert_mapping, select_actor, insert_actor, select_external,
  create_actor_id, get_or_create_actor_id, resolve_external_id,
}

-- the result of a lookup that must find something
abbrev pub found : {S : Type 0} → Option String → S → Result String × S
found none s = (err value_error, s)
found (some x) s = (ok x, s)

module _ {Q : Type 0} where
  resolve_at :
      (channel actor_id : String) (w : World Q) (p : Bool)
      → resolve_external_id channel actor_id (moved w p [])
        ≡ found (external_id_of channel actor_id w.identity_mappings) (moved w true [])
  unfolding resolve_external_id get_pg_pool init_pg_pool statement translating select_external
  resolve_at channel actor_id w true = ground arith
  resolve_at channel actor_id w false = ground arith

  pub resolve_quiet :
      (channel actor_id : String) (w : World Q)
      → w.faults ≡ []
      → resolve_external_id channel actor_id w
        ≡ found (external_id_of channel actor_id w.identity_mappings) (moved w true [])
  resolve_quiet channel actor_id w h =
      ap (resolve_external_id channel actor_id) (λ i. record w { faults = h i })
      ∙ resolve_at channel actor_id w w.pool

module _ {Q : Type 0} (uuid : ℕ → String) (channel external_id : String) where
  abbrev pub new_actor : World Q → String
  new_actor w = append channel (append "_" (uuid w.uuids))

  -- the world in which the address has a new actor id
  abbrev pub mapped : World Q → World Q
  mapped w = record w {
    pool = true;
    faults = [];
    uuids = w.uuids + 1;
    identity_mappings = insert_mapping channel external_id (new_actor w) w.identity_mappings;
  }

  pub create_quiet :
      (w : World Q)
      → w.faults ≡ []
      → w.pool ≡ true
      → create_actor_id uuid channel external_id w ≡ (ok (new_actor w), mapped w)
  unfolding create_actor_id insert_actor statement run_under
  create_quiet w h p = ground arith

  get_or_create_at :
      (w : World Q) (p : Bool)
      → get_or_create_actor_id uuid channel external_id (moved w p [])
        ≡ (elim (actor_id_of channel external_id w.identity_mappings) [
          | some a ↦ (ok a, moved w true [])
          | none ↦ (ok (new_actor w), mapped w)
        ])
  unfolding get_or_create_actor_id get_pg_pool init_pg_pool statement translating select_actor
      create_actor_id insert_actor
  get_or_create_at w true = ground arith
  get_or_create_at w false = ground arith

  pub get_or_create_quiet :
      (w : World Q)
      → w.faults ≡ []
      → get_or_create_actor_id uuid channel external_id w
        ≡ (elim (actor_id_of channel external_id w.identity_mappings) [
          | some a ↦ (ok a, moved w true [])
          | none ↦ (ok (new_actor w), mapped w)
        ])
  get_or_create_quiet w h =
      ap (get_or_create_actor_id uuid channel external_id) (λ i. record w { faults = h i })
      ∙ get_or_create_at w w.pool
