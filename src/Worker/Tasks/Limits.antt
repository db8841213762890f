-- ===== src/Worker/Tasks/Limits.antt =====
-- The semaphore and the stop flag of app/workers/base.py over all interleavings.
use delta_gateway_chat_woot.Base.{
  ℕ, ◌+◌, ◌≤◌, Bool, true, false, [], ◌∷◌, length, length-append, is_some, ◌≡◌, refl, ap, arith,
}
use delta_gateway_chat_woot.Worker.Tasks.{
  Worker, new_worker, Step, receive, request, abort, create, finish, stop, Reach, here, next,
}

abbrev one_if : Bool → ℕ
one_if true = 1
one_if false = 0

record IsSound (limit : ℕ) (w : Worker) : Type 0 where
  balanced : w.permits + length w.tasks ≡ limit
  -- before the stop nothing is late, and behind it only the message that waited
  early : w.stopping ≡ false → w.late ≡ 0
  bounded : w.late + one_if (is_some w.waiting) ≤ 1

Step-IsSound : (limit : ℕ) {w v : Worker} → Step w v → IsSound limit w → IsSound limit v
Step-IsSound limit (receive ms a b c) h = ground arith
Step-IsSound limit (request m rest a b c) h = ground (arith, h.early a)
Step-IsSound limit (abort a b) h = ground arith
Step-IsSound limit {w} (create m p a b) h = record {
  balanced = ground arith;
  early = ground (arith, h.early);
  bounded = ground arith;
}
Step-IsSound limit (finish m before after a) h = record {
  balanced = omega (
    arith,
    h.balanced,
    ap length a,
    length-append {0} before after,
    length-append {0} before (m ∷ after),
  );
  early = h.early;
  bounded = h.bounded;
}
Step-IsSound limit stop h = ground arith

new_worker-IsSound : (limit : ℕ) → IsSound limit (new_worker limit)
new_worker-IsSound limit = record {
  balanced = ground arith;
  early = λ _. refl;
  bounded = ground arith;
}

Reach-IsSound : (limit : ℕ) {w v : Worker} → Reach w v → IsSound limit w → IsSound limit v
Reach-IsSound limit here h = h
Reach-IsSound limit (next r s) h = Step-IsSound limit s (Reach-IsSound limit r h)

-- Whatever the interleaving, a worker runs at most `limit` tasks at a time, and all its permits
-- are back when no task runs.
pub Reach-task_limit :
    (limit : ℕ) (w : Worker)
    → Reach (new_worker limit) w
    → (length w.tasks ≤ limit) × (w.tasks ≡ [] → w.permits ≡ limit)
Reach-task_limit limit w r =
    let h = Reach-IsSound limit r (new_worker-IsSound limit) in
    (omega (arith, h.balanced), λ e. omega (arith, h.balanced, ap length e))

-- Whatever the interleaving, at most one task is created after `stop` was called.
pub Reach-late : (limit : ℕ) (w : Worker) → Reach (new_worker limit) w → w.late ≤ 1
Reach-late limit w r =
    let h = Reach-IsSound limit r (new_worker-IsSound limit) in omega (arith, h.bounded)
