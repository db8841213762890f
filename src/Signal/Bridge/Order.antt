-- ===== src/Signal/Bridge/Order.antt =====
-- As long as no send is given up, the results come back to the sends whose commands they answer.
use delta_gateway_chat_woot.Base.{
  ℕ, ◌≤◌, ◌<◌, true, false, List, [], ◌∷◌, ◌++◌, none, some, All, ◌≡◌, refl, sym, ap, ◌∙◌, arith,
}
use delta_gateway_chat_woot.Errors.{Result, ok}
use delta_gateway_chat_woot.Values.{Value, str, get_value}
use delta_gateway_chat_woot.Signal.Bridge.{fail_pending, connect, connection_lost, discard_pending}
use delta_gateway_chat_woot.Signal.Bridge.Steps.{
  System, Step, opened, sent, unsent, answered, told, returns, raises, gives_up, cancelled, lost,
  Reach, here, next,
}
use delta_gateway_chat_woot.Signal.Bridge.Fifo.{
  cancel-futures, cancel-pending, cancel-connected, IsOwn, outcome-own, complete-IsOwn,
  fail_all-IsOwn, complete-pending, complete-connected, fail_all-pending, begin_send_lem, told_lem,
  answered_lem, AllBelow, AllBelow-suc, AllBelow-append, discard-last,
}

module _ (answer : ℕ → Value)
    (answers : (n : ℕ) → get_value "type" (answer n) ≡ ok (str "send_result")) (base : ℕ) where
  record IsInOrder (s : System) : Type 0 where
    quiet : s.bridge.connected ≡ false → s.bridge.pending ≡ []
    synced : s.bridge.pending ≡ s.unanswered
    own : IsOwn answer base s.bridge.futures
    held : (n : ℕ) → s.holder ≡ some n → base ≤ n
    fresh : base ≤ s.next_id
    known : AllBelow s.next_id s.bridge.pending
    delivered : All (λ e. e.1 ≡ answer e.0) s.returned

  given_up_before : {s t : System} → Step answer s t → t.given_up ≡ false → s.given_up ≡ false
  given_up_before (opened a) g = g
  given_up_before (sent a b) g = g
  given_up_before (unsent a b) g = g
  given_up_before (answered n rest a b) g = g
  given_up_before (told event a) g = g
  given_up_before (returns n v a b) g = g
  given_up_before (raises n x a b) g = g
  given_up_before (gives_up n a b) g = cc g
  given_up_before (cancelled n a) g = g
  given_up_before lost g = g

  tail_known : (m n : ℕ) (l rest : List ℕ) → l ≡ n ∷ rest → AllBelow m l → AllBelow m rest
  tail_known m n l rest e h = (rw e at h).1

  Step-IsInOrder : {s t : System} → Step answer s t → t.given_up ≡ false → IsInOrder s → IsInOrder t
  unfolding connect connection_lost fail_pending discard_pending
  Step-IsInOrder {s} (opened off) g h = record {
    quiet = λ e. cc e;
    synced = h.quiet off;
    own = h.own;
    held = h.held;
    known = h.known;
    fresh = h.fresh;
    delivered = h.delivered;
  }
  Step-IsInOrder {s} (sent free on) g h = rw (begin_send_lem s.next_id s.bridge on) (record {
    quiet = λ e. cc (e, on);
    synced = ap (λ l. l ++ s.next_id ∷ []) h.synced;
    own = h.own;
    held = λ n e. let same : s.next_id ≡ n = cc e in rw (sym same) h.fresh;
    known = AllBelow-append s.next_id s.bridge.pending h.known;
    fresh = omega (arith, h.fresh);
    delivered = h.delivered;
  })
  Step-IsInOrder {s} (unsent free on) g h = rw (begin_send_lem s.next_id s.bridge on) (record {
    quiet = λ e. cc (e, on);
    synced = discard-last s.next_id s.bridge.pending h.known ∙ h.synced;
    own = h.own;
    held = h.held;
    known =
        rw (discard-last s.next_id s.bridge.pending h.known)
          (AllBelow-suc s.next_id s.bridge.pending h.known);
    fresh = omega (arith, h.fresh);
    delivered = h.delivered;
  })
  Step-IsInOrder {s} (answered n rest on e) g h =
      rw (answered_lem (answer n) s.bridge n rest (answers n) (h.synced ∙ e)) (record {
        quiet = λ off.
            cc (off, on, complete-connected n (ok (answer n)) (record s.bridge { pending = rest }));
        synced = complete-pending n _ _;
        own = complete-IsOwn answer base n (ok (answer n)) _ (λ v e. cc e) h.own;
        held = h.held;
        known =
            rw (complete-pending n (ok (answer n)) (record s.bridge { pending = rest }))
              (tail_known s.next_id n s.bridge.pending rest (h.synced ∙ e) h.known);
        fresh = h.fresh;
        delivered = h.delivered;
      })
  Step-IsInOrder {s} (told event other) g h =
      let (p, f, c) = told_lem event s.bridge other in
      record {
        quiet = λ off. p ∙ h.quiet (sym c ∙ off);
        synced = p ∙ h.synced;
        own = rw f h.own;
        held = h.held;
        known = rw p h.known;
        fresh = h.fresh;
        delivered = h.delivered;
      }
  Step-IsInOrder {s} (returns n v e done) g h = record {
    quiet = h.quiet;
    synced = h.synced;
    own = h.own;
    held = λ m e. cc e;
    known = h.known;
    fresh = h.fresh;
    delivered = (outcome-own answer base n s.bridge.futures v h.own (h.held n e) done, h.delivered);
  }
  Step-IsInOrder {s} (raises n x e done) g h = record {
    quiet = h.quiet;
    synced = h.synced;
    own = h.own;
    held = λ m e. cc e;
    known = h.known;
    fresh = h.fresh;
    delivered = h.delivered;
  }
  Step-IsInOrder {s} (gives_up n e open_yet) g h = cc g
  Step-IsInOrder {s} (cancelled n e) g h = record {
    quiet = λ off. cancel-pending n s.bridge ∙ h.quiet (sym (cancel-connected n s.bridge) ∙ off);
    synced = cancel-pending n s.bridge ∙ h.synced;
    own = rw (cancel-futures n s.bridge) h.own;
    held = λ m e. cc e;
    known = rw (cancel-pending n s.bridge) h.known;
    fresh = h.fresh;
    delivered = h.delivered;
  }
  Step-IsInOrder {s} lost g h = record {
    quiet = λ _. fail_all-pending s.bridge.pending _;
    synced = fail_all-pending s.bridge.pending _;
    own = fail_all-IsOwn answer base s.bridge.pending _ h.own;
    held = h.held;
    known = rw (fail_all-pending s.bridge.pending (record s.bridge { connected = false })) tt;
    fresh = h.fresh;
    delivered = h.delivered;
  }

  Reach-IsInOrder :
      {s t : System} → Reach answer s t → t.given_up ≡ false → IsInOrder s → IsInOrder t
  Reach-IsInOrder here g h = h
  Reach-IsInOrder (next r st) g h = Step-IsInOrder st g (Reach-IsInOrder r (given_up_before st g) h)

  IsOwn-below :
      (n : ℕ) (done : List (ℕ × Result Value))
      → All (λ e. e.0 < n) done
      → base ≡ n
      → IsOwn answer base done
  IsOwn-below n [] h e = tt
  IsOwn-below n ((f, r) ∷ done) h e =
      (λ b v q. absurd (omega (arith, h.0)), IsOwn-below n done h.1 e)

-- A connection that was just opened, with no send under way.
pub record IsFresh (s : System) : Type 0 where
  pub connected : s.bridge.connected ≡ true
  pub idle : s.holder ≡ none
  pub nothing_pending : s.bridge.pending ≡ []
  pub nothing_unanswered : s.unanswered ≡ []
  pub nothing_returned : s.returned ≡ []
  pub numbered : All (λ e. e.0 < s.next_id) s.bridge.futures
  pub cancelled_before : All (λ f. f < s.next_id) s.bridge.cancelled

-- If every answer of the daemon is a send_result: from a fresh connection, in every interleaving in
-- which no send was given up, each send that has returned has the daemon's answer to its own
-- command, also across cancelled senders, failed writes and lost connections.
pub Reach-returns_own :
    (answer : ℕ → Value)
    → ((n : ℕ) → get_value "type" (answer n) ≡ ok (str "send_result"))
    → (s t : System) → IsFresh s
    → Reach answer s t
    → t.given_up ≡ false
    → All (λ e. e.1 ≡ answer e.0) t.returned
Reach-returns_own answer answers s t f r g =
    (Reach-IsInOrder answer answers s.next_id r g (record {
      quiet = λ off. cc;
      synced = f.nothing_pending ∙ sym f.nothing_unanswered;
      own = IsOwn-below answer answers s.next_id s.next_id s.bridge.futures f.numbered refl;
      held = λ n e. cc;
      known = rw f.nothing_pending tt;
      fresh = omega arith;
      delivered = rw f.nothing_returned tt;
    })).delivered
