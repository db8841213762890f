-- ===== src/World/Runs.antt =====
-- What one statement on a pooled connection leaves behind, whatever it meets.
use delta_gateway_chat_woot.Base.{
  String, if◌then◌else◌, List, [], ◌∷◌, Bool, true, false, Bool-cases, Option, none, some, ◌≡◌, inl,
  inr, refl, ap, ◌∙◌, arith,
}
use delta_gateway_chat_woot.Errors.{Exc, Result, ok, err}
use delta_gateway_chat_woot.Exec.{Exec, ◌>>◌, modify}
use delta_gateway_chat_woot.World.{
  World, nothing, Fault, refused, lost, run_under, is_transient_postgres_error,
  raise_transient_postgres_error, statement, translating, init_pg_pool, get_pg_pool, on_connection,
}

-- `w` with another pool and other faults ahead
abbrev pub moved : {Q : Type 0} → World Q → Bool → List (Option Fault) → World Q
moved w p fs = record w { pool = p; faults = fs }

-- A run that ended in `o`: the statement ran on `w` up to the pool, and its result came back or
-- was lost; or it did not run at all.
pub data Ran {Q A : Type 0} (run : World Q → A × World Q) (w : World Q) (o : Result A × World Q)
    : Type 0 where
  returned :
      (p : Bool) (fs : List (Option Fault))
      → o ≡ (ok (run (moved w p fs)).0, (run (moved w p fs)).1)
      → Ran run w o
  unheard :
      (p : Bool) (fs : List (Option Fault)) (e : Exc)
      → o ≡ (err e, (run (moved w p fs)).1)
      → Ran run w o
  unsent : (p : Bool) (fs : List (Option Fault)) (e : Exc) → o ≡ (err e, moved w p fs) → Ran run w o

module _ {Q A : Type 0} (run : World Q → A × World Q) where
  run_under-Ran : (gs : List (Option Fault)) (w : World Q) → Ran run w (run_under gs run w)
  unfolding run_under
  run_under-Ran [] w = returned w.pool w.faults refl
  run_under-Ran (none ∷ fs) w = returned w.pool fs refl
  run_under-Ran (some (refused e) ∷ fs) w = unsent w.pool fs e refl
  run_under-Ran (some (lost e) ∷ fs) w = unheard w.pool fs e refl

  statement-Ran : (w : World Q) → Ran run w (statement run w)
  unfolding statement
  statement-Ran w = run_under-Ran w.faults w

translated : List String → Exc → Exc
translated keywords e =
    if is_transient_postgres_error e then raise_transient_postgres_error keywords else e

module _ {Q A : Type 0} (run : World Q → A × World Q) where
  Ran-moved :
      (w : World Q) (p : Bool) (fs : List (Option Fault)) {o : Result A × World Q}
      → Ran run (moved w p fs) o
      → Ran run w o
  Ran-moved w p fs (returned p' fs' e) = returned p' fs' e
  Ran-moved w p fs (unheard p' fs' x e) = unheard p' fs' x e
  Ran-moved w p fs (unsent p' fs' x e) = unsent p' fs' x e

  Ran-translating :
      (keywords : List String) (m : Exec (World Q) A) (w : World Q)
      → Ran run w (m w)
      → Ran run w (translating keywords m w)
  unfolding translating translated
  Ran-translating keywords m w (returned p fs e) = returned p fs (ground arith)
  Ran-translating keywords m w (unheard p fs x e) =
      unheard p fs (translated keywords x) (ground arith)
  Ran-translating keywords m w (unsent p fs x e) =
      unsent p fs (translated keywords x) (ground arith)

-- How the pool was got: it is there, or the world is as it was but for the faults ahead.
data Pooled {Q : Type 0} (w : World Q) (o : Result (Unit {0}) × World Q) : Type 0 where
  ready : (fs : List (Option Fault)) → o ≡ (ok tt, moved w true fs) → Pooled w o
  failed : (p : Bool) (fs : List (Option Fault)) (e : Exc) → o ≡ (err e, moved w p fs) → Pooled w o

module _ {Q : Type 0} where
  create : List (Option Fault) → Exec (World Q) (Unit {0})
  create fs = run_under fs nothing >> modify (λ w. record w { pool = true })

  init_under :
      (fs : List (Option Fault)) (w : World Q)
      → Pooled w (translating ("operation" ∷ []) (create fs) w)
  unfolding create run_under translating
  init_under [] w = ready w.faults refl
  init_under (none ∷ fs) w = ready fs refl
  init_under (some (refused e) ∷ fs) w =
      failed w.pool fs (translated ("operation" ∷ []) e) (unfold translated in ground arith)
  init_under (some (lost e) ∷ fs) w =
      failed w.pool fs (translated ("operation" ∷ []) e) (unfold translated in ground arith)

  get_pg_pool-Pooled : (w : World Q) → Pooled w (get_pg_pool w)
  unfolding get_pg_pool create statement translating
  get_pg_pool-Pooled w = elim (Bool-cases w.pool) [
    | inl there ↦ ready w.faults (ground arith)
    | inr missing ↦ simp missing (init_under w.faults w)
  ]

  on_connection-Ran :
      {A : Type 0} (run : World Q → A × World Q) (w : World Q) → Ran run w (on_connection run w)
  unfolding on_connection
  on_connection-Ran run w = elim (get_pg_pool-Pooled w) [
    | ready fs e ↦ rw e (Ran-moved run w true fs (statement-Ran run (moved w true fs)))
    | failed p fs x e ↦ unsent p fs x (rw e)
  ]

-- A statement of a storage class, sent over the pool with its errors translated.
pub query-Ran :
    {Q A : Type 0} (keywords : List String) (run : World Q → A × World Q) (w : World Q)
    → Ran run w (translating keywords (on_connection run) w)
query-Ran keywords run w =
    Ran-translating run keywords (on_connection run) w (on_connection-Ran run w)

module _ {Q A : Type 0} (keywords : List String) (run : World Q → A × World Q) where
  quiet_at :
      (w : World Q) (p : Bool)
      → translating keywords (on_connection run) (moved w p [])
        ≡ (ok (run (moved w true [])).0, (run (moved w true [])).1)
  unfolding translating on_connection get_pg_pool init_pg_pool statement run_under
  quiet_at w true = refl
  quiet_at w false = refl

  -- Where no fault lies ahead, the statement runs and its result comes back.
  pub query_quiet :
      (w : World Q)
      → w.faults ≡ []
      → translating keywords (on_connection run) w
        ≡ (ok (run (moved w true [])).0, (run (moved w true [])).1)
  query_quiet w h =
      ap (translating keywords (on_connection run)) (λ i. record w { faults = h i })
      ∙ quiet_at w w.pool
