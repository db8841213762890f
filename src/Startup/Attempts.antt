-- ===== src/Startup/Attempts.antt =====
-- How often the startup tries the database.
use delta_gateway_chat_woot.Base.{
  ℕ, ℤ, zero, suc, ◌+◌, ◌≤◌, leb, true, Bool-cases, Option, none, some, ◌≡◌, inl, inr, refl, arith,
}
use delta_gateway_chat_woot.Errors.{connection_error, transient_error, Result, ok, err}
use delta_gateway_chat_woot.Startup.{judge, proceed, wait_until_database_ready}

-- The check's temporary errors allow at most `limit` attempts.
abbrev pub IsBoundedBy : {S : Type 0} → ℕ → (S → Result (Unit {0}) × S) → Type 0
IsBoundedBy {S = S} limit ready =
    (s : S) (k : ℕ) (delay : ℤ) → (ready s).0 ≡ err (transient_error k delay) → k ≤ limit

module _ {S : Type 0} (ready : S → Result (Unit {0}) × S) (limit : ℕ)
    (bounded : IsBoundedBy limit ready) where
  judged :
      (n : ℕ) (r : Result (Unit {0}))
      → ((k : ℕ) (delay : ℤ) → r ≡ err (transient_error k delay) → k ≤ limit)
      → limit ≤ n
      → (o : Result (Unit {0})) × (judge ready n r ≡ some o)
  judged n (ok u) h l = (ok tt, refl)
  judged n (err (transient_error k delay)) h l =
      (err connection_error, ground (arith, h k delay refl))
  judged n (err e) h l = (err e, refl)

  proceeded :
      (j : Option (Result (Unit {0}))) (s : S) (o : Result (Unit {0}) × S)
      → (q : Result (Unit {0}) × S) × (proceed ready j s (some o) ≡ some q)
  proceeded (some r) s o = ((r, s), refl)
  proceeded none s o = (o, refl)

  -- If no temporary error of the check allows more attempts than the limit: the wait ends, with or
  -- without a database, at the latest with the attempt that the limit names, since as much fuel as
  -- attempts are left is enough from any attempt on.
  pub wait_until_database_ready-ends :
      (fuel n : ℕ) (s : S)
      → limit ≤ n + fuel
      → (o : Result (Unit {0}) × S) × (wait_until_database_ready ready (suc fuel) n s ≡ some o)
  unfolding wait_until_database_ready
  wait_until_database_ready-ends zero n s l =
      let (o, e) = judged n (ready s).0 (bounded s) (omega (arith, l)) in
      ((o, (ready s).1), rw e refl)
  wait_until_database_ready-ends (suc fuel) n s l =
      let (o, e) = wait_until_database_ready-ends fuel (suc n) (ready s).1 (omega (arith, l)) in
      let (q, f) = proceeded (judge ready n (ready s).0) (ready s).1 o in (q, rw e f)

-- While every check fails with a temporary error of one limit, the wait ends with ConnectionError,
-- on as much fuel as attempts are left.
pub wait_until_database_ready-refused :
    {S : Type 0} (ready : S → Result (Unit {0}) × S) (limit : ℕ)
    → ((s : S) → (delay : ℤ) × ((ready s).0 ≡ err (transient_error limit delay)))
    → (fuel n : ℕ) (s : S) → limit ≤ n + fuel
    → (t : S) × (wait_until_database_ready ready (suc fuel) n s ≡ some (err connection_error, t))
unfolding wait_until_database_ready
wait_until_database_ready-refused ready limit away zero n s l =
    let (delay, e) = away s in
    let over : leb limit n ≡ true = ground (arith, l) in ((ready s).1, rw e (rw over refl))
wait_until_database_ready-refused ready limit away (suc fuel) n s l =
    let (delay, e) = away s in
    elim (Bool-cases (leb limit n)) [
      | inl over ↦ ((ready s).1, rw e (rw over refl))
      | inr under ↦
          let (t, f) =
            wait_until_database_ready-refused ready limit away fuel (suc n) (ready s).1
              (omega (arith, l)) in
          (t, rw e (rw under f))
    ]
