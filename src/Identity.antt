-- ===== src/Identity.antt =====
-- infrastructure/identity_store.py: the actor ids under which a channel's users are known. The
-- uuids of Python are a parameter. The lookup and the insert are two statements, between which
-- another task may run.
pub mod Quiet
pub mod Race
pub mod RoundTrip
use delta_gateway_chat_woot.Base.{
  ℕ, suc, ◌+◌, String, str_eq, append, Bool, ◌&&◌, List, [], ◌∷◌, Option, none, some, if◌then◌else◌,
}
use delta_gateway_chat_woot.Errors.{ok, value_error}
use delta_gateway_chat_woot.Exec.{Exec, ◌>>=◌, ◌>>◌, pure, raise}
use delta_gateway_chat_woot.World.{World, IdentityRow, statement, get_pg_pool}

-- SELECT actor_id ... WHERE channel = $1 AND external_id = $2
unfoldable pub actor_id_of : String → String → List IdentityRow → Option String
actor_id_of channel external_id [] = none
actor_id_of channel external_id (r ∷ rows) =
    if str_eq r.channel channel && str_eq r.external_id external_id
    then some r.actor_id
    else actor_id_of channel external_id rows

-- SELECT external_id ... WHERE channel = $1 AND actor_id = $2
unfoldable pub external_id_of : String → String → List IdentityRow → Option String
external_id_of channel actor_id [] = none
external_id_of channel actor_id (r ∷ rows) =
    if str_eq r.channel channel && str_eq r.actor_id actor_id
    then some r.external_id
    else external_id_of channel actor_id rows

-- INSERT ... ON CONFLICT (channel, external_id) DO UPDATE SET actor_id = EXCLUDED.actor_id
unfoldable pub insert_mapping : String → String → String → List IdentityRow → List IdentityRow
insert_mapping channel external_id actor_id [] =
    record { channel = channel; external_id = external_id; actor_id = actor_id } ∷ []
insert_mapping channel external_id actor_id (r ∷ rows) =
    if str_eq r.channel channel && str_eq r.external_id external_id
    then record r { actor_id = actor_id } ∷ rows
    else r ∷ insert_mapping channel external_id actor_id rows

module _ {Q : Type 0} where
  unfoldable pub select_actor : String → String → World Q → Option String × World Q
  select_actor channel external_id w = (actor_id_of channel external_id w.identity_mappings, w)

  unfoldable pub insert_actor : String → String → String → World Q → Unit {0} × World Q
  insert_actor channel external_id actor_id w = (
    tt,
    record w {
      identity_mappings = insert_mapping channel external_id actor_id w.identity_mappings;
    },
  )

  unfoldable pub select_external : String → String → World Q → Option String × World Q
  select_external channel actor_id w = (external_id_of channel actor_id w.identity_mappings, w)

  -- uuid4().hex
  unfoldable pub draw : (ℕ → String) → Exec (World Q) String
  draw uuid w = (ok (uuid w.uuids), record w { uuids = w.uuids + 1 })

  -- The part behind the lookup, which found no row.
  unfoldable pub create_actor_id : (ℕ → String) → String → String → Exec (World Q) String
  unfolding draw
  create_actor_id uuid channel external_id = do
    hex ← draw uuid
    let actor_id = append channel (append "_" hex)
    statement (insert_actor channel external_id actor_id)
    pure actor_id

  unfoldable pub get_or_create_actor_id : (ℕ → String) → String → String → Exec (World Q) String
  get_or_create_actor_id uuid channel external_id = do
    get_pg_pool
    row ← statement (select_actor channel external_id)
    elim row [ some actor_id ↦ pure actor_id | none ↦ create_actor_id uuid channel external_id ]

  unfoldable pub resolve_external_id : String → String → Exec (World Q) String
  resolve_external_id channel actor_id = do
    get_pg_pool
    row ← statement (select_external channel actor_id)
    elim row [ some external_id ↦ pure external_id | none ↦ raise value_error ]
