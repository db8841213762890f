-- ===== src/Signal/Bridge/Fifo.antt =====
-- sig_bot_manager.py: what the operations change of the futures and the queue of a connection.
use delta_gateway_chat_woot.Base.{
  ℕ, suc, ◌≤◌, ◌<◌, ◌==◌, true, false, List, [], ◌∷◌, ◌++◌, some, All, any, Option-cases,
  Bool-cases, inl, inr, ◌≡◌, refl, sym, ◌∙◌, arith,
}
use delta_gateway_chat_woot.Errors.{signal_bridge_error, Result, ok, err}
use delta_gateway_chat_woot.Values.{Value, str, get_value}
use delta_gateway_chat_woot.Signal.Bridge.{
  Bridge, outcome, complete, cancel, resolve_pending, fail_all, handle_event, begin_send, discard,
}
use delta_gateway_chat_woot.Signal.Bridge.Steps.{is_result}

module _ (answer : ℕ → Value) (base : ℕ) where
  -- The futures of the sends from `base` on that have a result have that of their own command.
  abbrev pub IsOwn : List (ℕ × Result Value) → Type 0
  IsOwn = All (λ e. base ≤ e.0 → (v : Value) → e.1 ≡ ok v → v ≡ answer e.0)

  pub outcome-own :
      (n : ℕ) (done : List (ℕ × Result Value)) (v : Value)
      → IsOwn done
      → base ≤ n
      → outcome n done ≡ some (ok v)
      → v ≡ answer n
  unfolding outcome
  outcome-own n [] v h b e = cc e
  outcome-own n ((g, r) ∷ done) v h b e = elim (Bool-cases (g == n)) [
    | inl same ↦
        let at : g ≡ n = ground arith in
        rw (sym at) (h.0 (rw at b) v (let q : some r ≡ some (ok v) = rw same at e in cc q))
    | inr differs ↦ outcome-own n done v h.1 b (rw differs at e)
  ]

  pub complete-IsOwn :
      (f : ℕ) (r : Result Value) (b : Bridge)
      → ((v : Value) → r ≡ ok v → v ≡ answer f)
      → IsOwn b.futures
      → IsOwn (complete f r b).futures
  unfolding complete
  complete-IsOwn f r b own h = elim (Bool-cases (any (λ g. g == f) b.cancelled)) [
    | inl over ↦ rw (over, complete) h
    | inr waits ↦ elim (Option-cases (outcome f b.futures)) [
      | inl open_yet ↦ rw (waits, open_yet, complete) (λ _. own, h)
      | inr (q, done) ↦ rw (waits, done, complete) h
    ]
  ]

  pub fail_all-IsOwn : (fs : List ℕ) (b : Bridge) → IsOwn b.futures → IsOwn (fail_all fs b).futures
  unfolding fail_all
  fail_all-IsOwn [] b h = h
  fail_all-IsOwn (f ∷ fs) b h =
      fail_all-IsOwn fs (complete f (err (signal_bridge_error true)) b)
        (complete-IsOwn f (err (signal_bridge_error true)) b (λ v e. cc e) h)

pub cancel-futures : (f : ℕ) (b : Bridge) → (cancel f b).futures ≡ b.futures
unfolding cancel
cancel-futures f b = ground arith

pub cancel-pending : (f : ℕ) (b : Bridge) → (cancel f b).pending ≡ b.pending
unfolding cancel
cancel-pending f b = ground arith

pub cancel-connected : (f : ℕ) (b : Bridge) → (cancel f b).connected ≡ b.connected
unfolding cancel
cancel-connected f b = ground arith

pub complete-pending :
    (f : ℕ) (r : Result Value) (b : Bridge) → (complete f r b).pending ≡ b.pending
unfolding complete
complete-pending f r b = ground arith

pub complete-connected :
    (f : ℕ) (r : Result Value) (b : Bridge) → (complete f r b).connected ≡ b.connected
unfolding complete
complete-connected f r b = ground arith

pub fail_all-pending : (fs : List ℕ) (b : Bridge) → (fail_all fs b).pending ≡ []
unfolding fail_all
fail_all-pending [] b = refl
fail_all-pending (f ∷ fs) b = fail_all-pending fs _

pub fail_all-connected : (fs : List ℕ) (b : Bridge) → (fail_all fs b).connected ≡ b.connected
unfolding fail_all
fail_all-connected [] b = refl
fail_all-connected (f ∷ fs) b = fail_all-connected fs _ ∙ complete-connected f _ b

pub begin_send_lem :
    (n : ℕ) (b : Bridge)
    → b.connected ≡ true
    → (begin_send n b).1 ≡ record b { pending = b.pending ++ n ∷ [] }
unfolding begin_send
begin_send_lem n b h = ground arith

-- An event that is no send_result leaves what the sends see as it is.
pub told_lem :
    (event : Value) (b : Bridge)
    → is_result event ≡ false
    → ((handle_event event b).1.pending ≡ b.pending)
      × ((handle_event event b).1.futures ≡ b.futures)
      × ((handle_event event b).1.connected ≡ b.connected)
unfolding handle_event
told_lem event b h = ground arith

pub answered_lem :
    (event : Value) (b : Bridge) (n : ℕ) (rest : List ℕ)
    → get_value "type" event ≡ ok (str "send_result")
    → b.pending ≡ n ∷ rest
    → (handle_event event b).1 ≡ complete n (ok event) (record b { pending = rest })
unfolding handle_event resolve_pending
answered_lem event b n rest t p = ground arith

abbrev pub AllBelow : ℕ → List ℕ → Type 0
AllBelow n = All (λ f. f < n)

pub AllBelow-suc : (n : ℕ) (l : List ℕ) → AllBelow n l → AllBelow (suc n) l
AllBelow-suc n [] h = tt
AllBelow-suc n (f ∷ l) h = (omega (arith, h.0), AllBelow-suc n l h.1)

pub AllBelow-append : (n : ℕ) (l : List ℕ) → AllBelow n l → AllBelow (suc n) (l ++ n ∷ [])
AllBelow-append n [] h = (omega arith, tt)
AllBelow-append n (f ∷ l) h = (omega (arith, h.0), AllBelow-append n l h.1)

pub discard-last : (n : ℕ) (l : List ℕ) → AllBelow n l → discard n (l ++ n ∷ []) ≡ l
unfolding discard
discard-last n [] h = ground arith
discard-last n (f ∷ l) h = ground (arith, discard-last n l h.1)
