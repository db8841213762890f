-- ===== src/World.antt =====
-- The state that the gateway's storage classes share: the PostgreSQL database, the connection pool
-- (infrastructure/pg_conn_manager.py) and the translation of its errors
-- (infrastructure/postgres_transient.py). A statement may fail before the server has run it, or
-- after: `faults` says what each of the next statements meets.
pub mod Runs
use delta_gateway_chat_woot.Base.{
  ℕ, String, str_eq, Bool, true, false, not, ◌&&◌, ◌||◌, List, [], ◌∷◌, Option, none, some, any,
  if◌then◌else◌,
}
use delta_gateway_chat_woot.Base.Dict.{Dict}
use delta_gateway_chat_woot.Errors.{
  Exc, os_error, connection_error, timeout_error, postgres_connection_error,
  cannot_connect_now_error, interface_error, client_connector_error, transient_default, type_error,
  Result, ok, err,
}
use delta_gateway_chat_woot.Exec.{Exec, ◌>>=◌, ◌>>◌, pure, raise, gets, attempt, modify, when}

pub data Fault : Type 0 where
  -- the server never ran the statement
  refused : Exc → Fault
  -- the server ran it, and its answer was lost
  lost : Exc → Fault

-- a row of `identity_mappings`
pub record IdentityRow : Type 0 where
  pub channel : String
  pub external_id : String
  pub actor_id : String

-- a row of `pgmq.contact_aliases`
pub record AliasRow : Type 0 where
  pub channel : String
  pub real_id : String
  pub alias_id : String
  pub last_used_at : ℕ

-- `Q` is the state of the pgmq extension. A listener is kept with whether its connection is closed.
pub record World (Q : Type 0) : Type 0 where
  pub pool : Bool
  pub faults : List (Option Fault)
  pub now : ℕ
  pub uuids : ℕ
  pub processed_keys : List String
  pub identity_mappings : List IdentityRow
  pub contact_aliases : List AliasRow
  pub queue : Q
  pub event : Bool
  pub listeners : Dict Bool

module _ {Q : Type 0} where
  unfoldable pub run_under :
      {A : Type 0} → List (Option Fault) → (World Q → A × World Q) → Exec (World Q) A
  run_under [] run s = let (a, s') = run s in (ok a, s')
  run_under (none ∷ fs) run s = let (a, s') = run (record s { faults = fs }) in (ok a, s')
  run_under (some (refused e) ∷ fs) run s = (err e, record s { faults = fs })
  run_under (some (lost e) ∷ fs) run s = let (a, s') = run (record s { faults = fs }) in (err e, s')

  -- One statement on a connection.
  unfoldable pub statement : {A : Type 0} → (World Q → A × World Q) → Exec (World Q) A
  unfolding run_under
  statement run s = run_under s.faults run s

unfoldable pub is_transient_postgres_error : Exc → Bool
is_transient_postgres_error os_error = true
is_transient_postgres_error connection_error = true
is_transient_postgres_error timeout_error = true
is_transient_postgres_error postgres_connection_error = true
is_transient_postgres_error cannot_connect_now_error = true
is_transient_postgres_error interface_error = true
is_transient_postgres_error client_connector_error = true
is_transient_postgres_error _ = false

-- The keyword parameters that `raise_transient_postgres_error` declares.
has_parameter : String → Bool
has_parameter k =
    str_eq k "operation" || (str_eq k "queue_name" || (str_eq k "msg_id" || str_eq k "key"))

-- What a call with the given keywords raises: with an unknown keyword it is Python's TypeError.
unfoldable pub raise_transient_postgres_error : List String → Exc
unfolding has_parameter
raise_transient_postgres_error keywords =
    if any (λ k. not (has_parameter k)) keywords then type_error else transient_default

-- except Exception as exc: if is_transient_postgres_error(exc): raise_transient...; raise
unfoldable pub translating {ℓ} : {S A : Type ℓ} → List String → Exec S A → Exec S A
unfolding is_transient_postgres_error raise_transient_postgres_error
translating keywords m = attempt m (λ e.
    if is_transient_postgres_error e
    then raise (raise_transient_postgres_error keywords)
    else raise e)

module _ {Q : Type 0} where
  -- a statement that changes nothing that the model holds
  abbrev pub nothing : World Q → Unit {0} × World Q
  nothing s = (tt, s)

  unfoldable pub init_pg_pool : Exec (World Q) (Unit {0})
  init_pg_pool s =
      if s.pool
      then (ok tt, s)
      else translating ("operation" ∷ [])
          (statement nothing >> modify (λ w. record w { pool = true })) s

  unfoldable pub get_pg_pool : Exec (World Q) (Unit {0})
  unfolding init_pg_pool
  get_pg_pool s = if s.pool then (ok tt, s) else init_pg_pool s

  unfoldable pub close_pg_pool : Exec (World Q) (Unit {0})
  close_pg_pool s =
      if s.pool
      then (statement nothing >> modify (λ w. record w { pool = false })) s
      else (ok tt, s)

  unfoldable pub get_connection : Exec (World Q) (Unit {0})
  get_connection = translating ("operation" ∷ []) (statement nothing)

  -- pool = await get_pg_pool(); async with pool.acquire() as conn: run
  unfoldable pub on_connection : {A : Type 0} → (World Q → A × World Q) → Exec (World Q) A
  on_connection run = get_pg_pool >> statement run
