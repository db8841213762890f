-- ===== src/Alias/Failures.antt =====
-- What the alias store raises when the database fails.
use delta_gateway_chat_woot.Base.{
  ℕ, String, true, List, ◌∷◌, Option, some, ◌≡◌, arith, ◌⊎◌, inl, inr,
}
use delta_gateway_chat_woot.Errors.{Exc, err, type_error, transient_default}
use delta_gateway_chat_woot.World.{
  World, Fault, refused, lost, translating, is_transient_postgres_error,
  raise_transient_postgres_error, on_connection, get_pg_pool, statement, run_under,
}
use delta_gateway_chat_woot.Alias.{upsert_alias, touch_alias, get_or_create_alias, resolve_alias}
use delta_gateway_chat_woot.Queue.{is_already_processed, select_key}

-- What a fault of the connection makes of one statement, over a pool that is there.
hit :
    {Q A : Type 0} (keywords : List String) (run : World Q → A × World Q) (w : World Q) (e : Exc)
    (fs : List (Option Fault))
    → w.pool ≡ true
    → (w.faults ≡ some (refused e) ∷ fs) ⊎ (w.faults ≡ some (lost e) ∷ fs)
    → is_transient_postgres_error e ≡ true
    → (translating keywords (on_connection run) w).0 ≡ err (raise_transient_postgres_error keywords)
unfolding translating on_connection get_pg_pool statement run_under
hit keywords run w e fs p (inl h) t = ground arith
hit keywords run w e fs p (inr h) t = ground arith

-- With a pool, and a connection error of the database that the next statement meets: the queue
-- turns it into a TransientError, but out of the alias store comes a TypeError, from making an
-- alias and from resolving one.
pub alias_store_type_error :
    {Q : Type 0} (uuid : ℕ → String) (channel real_id alias_id key : String) (w : World Q) (e : Exc)
    (fs : List (Option Fault))
    → w.pool ≡ true
    → (w.faults ≡ some (refused e) ∷ fs) ⊎ (w.faults ≡ some (lost e) ∷ fs)
    → is_transient_postgres_error e ≡ true
    → ((get_or_create_alias uuid channel real_id w).0 ≡ err type_error)
      × ((resolve_alias alias_id w).0 ≡ err type_error)
      × ((is_already_processed key w).0 ≡ err transient_default)
unfolding get_or_create_alias resolve_alias is_already_processed raise_transient_postgres_error
alias_store_type_error uuid channel real_id alias_id key w e fs p h t = (
  hit _ (upsert_alias uuid channel real_id) w e fs p h t,
  hit _ (touch_alias alias_id) w e fs p h t,
  hit _ (select_key key) w e fs p h t,
)
