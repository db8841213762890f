-- ===== src/Alias.antt =====
-- infrastructure/contact_alias_store.py: the table of opaque aliases. The uuids that PostgreSQL
-- generates are a parameter, drawn one after another.
pub mod RoundTrip
pub mod Invariant
pub mod Failures
use delta_gateway_chat_woot.Base.{
  ℕ, suc, ◌+◌, String, str_eq, Bool, ◌&&◌, List, [], ◌∷◌, Option, none, some, if◌then◌else◌,
}
use delta_gateway_chat_woot.Exec.{Exec}
use delta_gateway_chat_woot.World.{World, AliasRow, translating, on_connection}

-- INSERT ... ON CONFLICT (channel, real_id) DO UPDATE SET last_used_at = NOW() RETURNING alias_id
unfoldable pub upsert : String → ℕ → String → String → List AliasRow → String × List AliasRow
upsert fresh now channel real_id [] = (
  fresh,
  record { channel = channel; real_id = real_id; alias_id = fresh; last_used_at = now } ∷ [],
)
upsert fresh now channel real_id (r ∷ rows) =
    let (alias_id, rest) = upsert fresh now channel real_id rows in
    if str_eq r.channel channel && str_eq r.real_id real_id
    then (r.alias_id, record r { last_used_at = now } ∷ rows)
    else (alias_id, r ∷ rest)

-- The row that UPDATE ... WHERE alias_id = $1 RETURNING real_id returns first.
unfoldable pub real_id_of : String → List AliasRow → Option String
real_id_of alias_id [] = none
real_id_of alias_id (r ∷ rows) =
    if str_eq r.alias_id alias_id then some r.real_id else real_id_of alias_id rows

unfoldable pub touch : String → ℕ → List AliasRow → List AliasRow
touch alias_id now [] = []
touch alias_id now (r ∷ rows) =
    (if str_eq r.alias_id alias_id then record r { last_used_at = now } else r)
    ∷ touch alias_id now rows

module _ {Q : Type 0} where
  unfoldable pub upsert_alias : (ℕ → String) → String → String → World Q → String × World Q
  upsert_alias uuid channel real_id w =
      let (alias_id, rows) = upsert (uuid w.uuids) w.now channel real_id w.contact_aliases in
      (alias_id, record w { uuids = w.uuids + 1; contact_aliases = rows })

  unfoldable pub touch_alias : String → World Q → Option String × World Q
  touch_alias alias_id w = (
    real_id_of alias_id w.contact_aliases,
    record w { contact_aliases = touch alias_id w.now w.contact_aliases },
  )

  -- The call of raise_transient_postgres_error passes `operation` and `channel`.
  unfoldable pub get_or_create_alias : (ℕ → String) → String → String → Exec (World Q) String
  get_or_create_alias uuid channel real_id =
      translating ("operation" ∷ "channel" ∷ []) (on_connection (upsert_alias uuid channel real_id))

  -- The call of raise_transient_postgres_error passes `operation` and `alias_id`.
  unfoldable pub resolve_alias : String → Exec (World Q) (Option String)
  resolve_alias alias_id =
      translating ("operation" ∷ "alias_id" ∷ []) (on_connection (touch_alias alias_id))
