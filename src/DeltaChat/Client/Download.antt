-- ===== src/DeltaChat/Client/Download.antt =====
-- channels/delta_chat_channel/dc_client.py: waiting for the file of a message. Times are in
-- milliseconds, and `_stop_event` is read before each round.
use delta_gateway_chat_woot.Base.{
  ℕ, zero, suc, ◌+◌, ◌*◌, ◌≤◌, ltb, String, str_eq, lower, trim, Bool, true, false, not, ◌&&◌, ◌||◌,
  Bool-cases, inl, inr, ◌≡◌, ◌≢◌, refl, arith, if◌then◌else◌,
}
use delta_gateway_chat_woot.Errors.{Result, ok, err, ◌>>=ᵣ◌}
use delta_gateway_chat_woot.Values.{Value, str, truthy, or_value, get_value}
use delta_gateway_chat_woot.Values.Text.{text_of}

-- str(v or "").strip().lower()
word : Value → String
word v = lower (trim (text_of (or_value v (str ""))))

unfoldable pub needs_download : Value → Result Bool
unfolding word
needs_download snapshot = get_value "view_type" snapshot >>=ᵣ λ view.
    get_value "file" snapshot >>=ᵣ λ file. get_value "download_state" snapshot >>=ᵣ λ state.
    let view_type = word view in
    ok (
      not (str_eq view_type "" || str_eq view_type "text")
      && (not (truthy file) && not (str_eq (word state) "done")))

-- Whether a snapshot ends the wait.
unfoldable pub is_full : Value → Result Bool
is_full snapshot = get_value "file" snapshot >>=ᵣ λ file.
    get_value "download_state" snapshot >>=ᵣ λ state.
    ok (truthy file || str_eq (lower (text_of (or_value state (str "")))) "done")

-- The core and the clock. A call takes the time that it takes, and may fail.
pub record Waiting (S : Type 0) : Type 0 where
  pub monotonic : S → ℕ
  pub stop_event : S → Bool
  pub get_snapshot : S → Result Value × S
  pub sleep : S → S
  pub download_full_message : S → Result (Unit {0}) × S

-- Time does not run backwards, and the sleep of 0.2 seconds takes that long.
pub record IsClocked {S : Type 0} (w : Waiting S) : Type 0 where
  pub snapshot_later : (s : S) → w.monotonic s ≤ w.monotonic (w.get_snapshot s).1
  pub sleep_later : (s : S) → w.monotonic s + 200 ≤ w.monotonic (w.sleep s)

-- How the wait went on after a snapshot.
pub data Ended : Type 0 where
  ended : Result Value → Ended
  out_of_fuel : Ended

module _ {S : Type 0} (w : Waiting S) (deadline : ℕ) where
  after_snapshot : Result Value → Result (Value × Bool)
  after_snapshot r = r >>=ᵣ λ snapshot. is_full snapshot >>=ᵣ λ full. ok (snapshot, full)

  -- The `while` loop, with the last snapshot.
  unfoldable pub poll : ℕ → Value → S → Ended × S
  unfolding after_snapshot
  poll zero snapshot s = (out_of_fuel, s)
  poll (suc fuel) snapshot s =
      let (r, s') = w.get_snapshot s in
      let rest = λ (v : Value). poll fuel v (w.sleep s') in
      let round = elim (after_snapshot r) as (λ x. Ended × S) [
        | err e ↦ (ended (err e), s')
        | ok (v, full) ↦ if full then (ended (ok v), s') else rest v
      ] in
      if ltb (w.monotonic s) deadline && not (w.stop_event s)
      then round
      else (ended (ok snapshot), s)

abbrev polled : Result (Unit {0}) → Ended → Ended
polled (ok u) e = e
polled (err x) e = ended (err x)

module _ {S : Type 0} (w : Waiting S) (timeout : ℕ) where
  -- `running` says whether the client has its RPC connection; the fuel is more than the rounds that
  -- the time allows.
  unfoldable pub wait_for_full_message : Bool → Value → S → Ended × S
  wait_for_full_message running snapshot s = elim (needs_download snapshot) [
    | err e ↦ (ended (err e), s)
    | ok needed ↦
        let (r, s') = w.download_full_message s in
        let (e, s'') = poll w (w.monotonic s' + timeout) (suc timeout) snapshot s' in
        if needed && running then (polled r e, s'') else (ended (ok snapshot), s)
  ]

module _ {S : Type 0} (w : Waiting S) (clocked : IsClocked w) (deadline : ℕ) where
  abbrev IsOver : Ended → Type 0
  IsOver e = e ≢ out_of_fuel

  round-IsOver :
      (fuel : ℕ) (r : Result (Value × Bool)) (s' : S)
      → ((v : Value) → IsOver (poll w deadline fuel v (w.sleep s')).0)
      → IsOver
          (elim r as (λ x. Ended × S) [
            | err e ↦ (ended (err e), s')
            | ok (v, full) ↦
                if full then (ended (ok v), s') else poll w deadline fuel v (w.sleep s')
          ]).0
  round-IsOver fuel (err e) s' h = λ q. cc q
  round-IsOver fuel (ok (v, true)) s' h = λ q. cc q
  round-IsOver fuel (ok (v, false)) s' h = h v

  -- With a round of fuel for each 0.2 seconds up to the deadline, and one for the last look at the
  -- clock, the loop does not run out of it.
  poll-ends :
      (fuel : ℕ) (snapshot : Value) (s : S)
      → deadline ≤ w.monotonic s + fuel * 200
      → IsOver (poll w deadline (suc fuel) snapshot s).0
  unfolding poll
  poll-ends zero snapshot s h =
      let late : ltb (w.monotonic s) deadline ≡ false = ground arith in rw late (λ q. cc q)
  poll-ends (suc fuel) snapshot s h =
      elim (Bool-cases (ltb (w.monotonic s) deadline && not (w.stop_event s))) [
        | inr over ↦ rw over (λ q. cc q)
        | inl on ↦ rw on (
            round-IsOver (suc fuel) (after_snapshot w deadline (w.get_snapshot s).0)
              (w.get_snapshot s).1
              (λ v. poll-ends fuel v (w.sleep (w.get_snapshot s).1) (
                omega (arith, clocked.snapshot_later s, clocked.sleep_later (w.get_snapshot s).1))))
      ]

ended-polled :
    (r : Result (Unit {0})) (e : Ended)
    → e ≢ out_of_fuel
    → (v : Result Value) × (polled r e ≡ ended v)
ended-polled (ok u) (ended v) h = (v, refl)
ended-polled (ok u) out_of_fuel h = absurd (h refl)
ended-polled (err x) e h = (err x, refl)

ended-if :
    {S : Type 0} (n : Result Bool) (running : Bool) (e : Ended) (snapshot : Value) (s s' : S)
    → ((v : Result Value) × (e ≡ ended v))
    → (v : Result Value) × ((elim n as (λ x. Ended × S) [
      | err x ↦ (ended (err x), s)
      | ok needed ↦ if needed && running then (e, s') else (ended (ok snapshot), s)
    ]).0
        ≡ ended v)
ended-if (err x) running e snapshot s s' h = (err x, refl)
ended-if (ok false) running e snapshot s s' h = (ok snapshot, refl)
ended-if (ok true) false e snapshot s s' h = (ok snapshot, refl)
ended-if (ok true) true e snapshot s s' h = h

-- If time does not run backwards and the sleep takes 0.2 seconds: the wait for a message's file ends,
-- with a snapshot or an error, whatever the core answers and whenever the client is stopped; the fuel
-- of the model is never used up.
pub wait_for_full_message-ends :
    {S : Type 0} (w : Waiting S)
    → IsClocked w
    → (timeout : ℕ) (running : Bool) (snapshot : Value) (s : S)
    → (r : Result Value) × ((wait_for_full_message w timeout running snapshot s).0 ≡ ended r)
unfolding wait_for_full_message
wait_for_full_message-ends w clocked timeout running snapshot s =
    let s' = (w.download_full_message s).1 in
    ended-if (needs_download snapshot) running _ snapshot s _ (
      ended-polled (w.download_full_message s).0
        (poll w (w.monotonic s' + timeout) (suc timeout) snapshot s').0
        (poll-ends w clocked (w.monotonic s' + timeout) timeout snapshot s' (omega arith)))
