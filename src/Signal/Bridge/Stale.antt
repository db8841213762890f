-- ===== src/Signal/Bridge/Stale.antt =====
-- What a late answer does: `_discard_pending` forgets the send, and the daemon answers it all the
-- same.
use delta_gateway_chat_woot.Base.{
  ℕ, suc, ◌≤◌, ◌<◌, true, List, [], ◌∷◌, none, some, All, any, ◌==◌, false, ◌≡◌, refl, sym, subst,
  arith,
}
use delta_gateway_chat_woot.Errors.{Result, ok}
use delta_gateway_chat_woot.Values.{Value, str, get_value}
use delta_gateway_chat_woot.Signal.Bridge.{
  Bridge, outcome, complete, resolve_pending, handle_event, begin_send, await_result, discard,
  discard_pending,
}
use delta_gateway_chat_woot.Signal.Bridge.Steps.{
  System, Step, sent, answered, returns, gives_up, Reach, here, next,
}
use delta_gateway_chat_woot.Signal.Bridge.Order.{IsFresh}

outcome-below :
    (n m : ℕ) (done : List (ℕ × Result Value))
    → All (λ e. e.0 < n) done
    → n ≤ m
    → outcome m done ≡ none
unfolding outcome
outcome-below n m [] h le = refl
outcome-below n m ((f, r) ∷ done) h le = ground (arith, outcome-below n m done h.1 le)

any-below : (n m : ℕ) (l : List ℕ) → All (λ f. f < n) l → n ≤ m → any (λ g. g == m) l ≡ false
any-below n m [] h le = refl
any-below n m (f ∷ l) h le = ground (arith, any-below n m l h.1 le)

-- The futures of a connection, and those that were cancelled, have numbers below `n`.
abbrev AllBefore : ℕ → Bridge → Type 0
AllBefore n b = All (λ e. e.0 < n) b.futures × All (λ f. f < n) b.cancelled

abbrev opened_bridge : Bridge → Bridge
opened_bridge b = record b { connected = true; pending = [] }

abbrev fresh : System → System
fresh s = record s {
  bridge = opened_bridge s.bridge;
  holder = none;
  unanswered = [];
  returned = [];
}

fresh_lem : (s : System) → IsFresh s → s ≡ fresh s
fresh_lem s f = ground arith

module _ (answer : ℕ → Value)
    (answers : (n : ℕ) → get_value "type" (answer n) ≡ ok (str "send_result")) where
  abbrev Misdirected : System → Type 0
  Misdirected s =
      (t : System) × Reach answer s t
      × (t.returned ≡ (suc s.next_id, answer s.next_id) ∷ [])
      × (t.unanswered ≡ suc s.next_id ∷ [])

  given_up_lem :
      (n : ℕ) (b : Bridge)
      → All (λ e. e.0 < n) b.futures
      → (await_result n (record (opened_bridge b) { pending = n ∷ [] })).1 ≡ opened_bridge b
  unfolding await_result discard_pending discard
  given_up_lem n b below = ground (arith, outcome-below n n b.futures below)

  misdirected_lem :
      (n : ℕ) (b : Bridge)
      → AllBefore n b
      → (handle_event (answer n) (record (opened_bridge b) { pending = suc n ∷ [] })).1
        ≡ record (opened_bridge b) { futures = (suc n, ok (answer n)) ∷ b.futures }
  unfolding handle_event resolve_pending complete
  misdirected_lem n b below = ground (
    arith,
    answers n,
    outcome-below n (suc n) b.futures below.0 (omega arith),
    any-below n (suc n) b.cancelled below.1 (omega arith),
  )

  -- The first send is given up, and its command still unanswered.
  abbrev given_up_one : System → System
  given_up_one s = record (fresh s) {
    next_id = suc s.next_id;
    unanswered = s.next_id ∷ [];
    given_up = true;
  }

  -- The next send has written its command.
  abbrev written_next : System → System
  written_next s = record (given_up_one s) {
    bridge = record (opened_bridge s.bridge) { pending = suc s.next_id ∷ [] };
    next_id = suc (suc s.next_id);
    holder = some (suc s.next_id);
    unanswered = s.next_id ∷ suc s.next_id ∷ [];
  }

  -- It has the answer to the first.
  abbrev answered_next : System → System
  answered_next s = record (written_next s) {
    bridge = record (opened_bridge s.bridge) {
      futures = (suc s.next_id, ok (answer s.next_id)) ∷ s.bridge.futures;
    };
    unanswered = suc s.next_id ∷ [];
  }

  Reach-given_up_one :
      (s : System)
      → All (λ e. e.0 < s.next_id) s.bridge.futures
      → Reach answer (fresh s) (given_up_one s)
  unfolding begin_send
  Reach-given_up_one s below =
      let n = s.next_id in
      let written = record (given_up_one s) {
        bridge = record (opened_bridge s.bridge) { pending = n ∷ [] };
        holder = some n;
        given_up = s.given_up;
      } in
      let r : Reach answer (fresh s) written = next here (sent refl refl) in
      next r (
        subst
          (λ b. Step answer written (record written { bridge = b; holder = none; given_up = true }))
          (given_up_lem n s.bridge below)
          (gives_up n refl (outcome-below n n s.bridge.futures below (omega arith))))

  Step-answered_next :
      (s : System) → AllBefore s.next_id s.bridge → Step answer (written_next s) (answered_next s)
  Step-answered_next s below =
      subst
        (λ b.
          Step answer (written_next s)
            (record (written_next s) { bridge = b; unanswered = suc s.next_id ∷ [] }))
        (misdirected_lem s.next_id s.bridge below)
        (answered s.next_id (suc s.next_id ∷ []) refl refl)

  misdirected : (s : System) → AllBefore s.next_id s.bridge → Misdirected (fresh s)
  unfolding begin_send outcome
  misdirected s below =
      let n = s.next_id in
      let end = record (answered_next s) { holder = none; returned = (suc n, answer n) ∷ [] } in
      let r : Reach answer (fresh s) (written_next s) =
        next (Reach-given_up_one s below.0) (sent refl refl) in
      let run : Reach answer (fresh s) end =
        next (next r (Step-answered_next s below))
          (returns (suc n) (answer n) refl (ground arith)) in
      (end, run, refl, refl)

-- If every answer of the daemon is a send_result: from every fresh connection there is a run in
-- which a send is given up when its time is up, and the next send returns with the daemon's answer
-- to the first command, whatever the two answers are, before its own command is answered.
pub late_answer-misdirected :
    (answer : ℕ → Value)
    → ((n : ℕ) → get_value "type" (answer n) ≡ ok (str "send_result"))
    → (s : System) → IsFresh s
    → (t : System) × Reach answer s t
      × (t.returned ≡ (suc s.next_id, answer s.next_id) ∷ [])
      × (t.unanswered ≡ suc s.next_id ∷ [])
late_answer-misdirected answer answers s f =
    let e = fresh_lem s f in
    subst (Misdirected answer answers) (sym e)
      (misdirected answer answers s (f.numbered, f.cancelled_before))
