-- ===== src/Startup.antt =====
-- app/utils/runtime.py: waiting for the database at startup. `ready` is the check, by default
-- ensure_database_ready of the queue; sleeping changes nothing. The loop runs on fuel.
pub mod Attempts
use delta_gateway_chat_woot.Base.{ℕ, zero, suc, leb, Bool, Option, none, some, if◌then◌else◌}
use delta_gateway_chat_woot.Errors.{Exc, connection_error, transient_error, Result, ok, err}

module _ {S : Type 0} (ready : S → Result (Unit {0}) × S) where
  -- What the loop does with an attempt's result: an end, or `none` for another turn.
  abbrev pub judge : ℕ → Result (Unit {0}) → Option (Result (Unit {0}))
  judge n (ok u) = some (ok tt)
  judge n (err (transient_error limit delay)) =
      if leb limit n then some (err connection_error) else none
  judge n (err e) = some (err e)

  abbrev pub proceed :
      Option (Result (Unit {0}))
      → S
      → Option (Result (Unit {0}) × S)
      → Option (Result (Unit {0}) × S)
  proceed (some r) s rest = some (r, s)
  proceed none s rest = rest

  -- The attempts from the n-th on; `none` where the fuel does not suffice.
  unfoldable pub wait_until_database_ready : (fuel n : ℕ) → S → Option (Result (Unit {0}) × S)
  wait_until_database_ready zero n s = none
  wait_until_database_ready (suc fuel) n s =
      let (r, s') = ready s in
      let rest = wait_until_database_ready fuel (suc n) s' in proceed (judge n r) s' rest
