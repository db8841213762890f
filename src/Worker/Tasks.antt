-- ===== src/Worker/Tasks.antt =====
-- app/workers/base.py: the loop of a worker and its tasks, as steps that interleave. The semaphore
-- is its counter; a task is the id of its message.
pub mod Limits
use delta_gateway_chat_woot.Base.{
  ℕ, suc, ◌+◌, Bool, true, false, List, [], ◌∷◌, ◌++◌, Option, none, some, ◌≡◌,
}

pub record Worker : Type 0 where
  pub stopping : Bool
  -- the rest of the batch that _process_messages goes through
  pub batch : List ℕ
  -- the message that waits at the semaphore
  pub waiting : Option ℕ
  pub permits : ℕ
  pub tasks : List ℕ
  -- how many tasks have been created since `stop` was called
  pub late : ℕ

-- BaseWorker(message_limit=limit)
abbrev pub new_worker : ℕ → Worker
new_worker limit = record {
  stopping = false;
  batch = [];
  waiting = none;
  permits = limit;
  tasks = [];
  late = 0;
}

abbrev pub count_late : Bool → ℕ → ℕ
count_late true n = suc n
count_late false n = n

-- One step of the loop, of a task, or of a caller of `stop`.
pub data Step (w : Worker) : Worker → Type 0 where
  -- run: a batch was read while the flag was not set
  receive :
      (messages : List ℕ)
      → w.stopping ≡ false
      → w.batch ≡ []
      → w.waiting ≡ none
      → Step w (record w { batch = messages })
  -- _process_messages: the flag is looked at, then the semaphore is acquired
  request :
      (m : ℕ) (rest : List ℕ)
      → w.stopping ≡ false
      → w.batch ≡ m ∷ rest
      → w.waiting ≡ none
      → Step w (record w { batch = rest; waiting = some m })
  abort : w.stopping ≡ true → w.waiting ≡ none → Step w (record w { batch = [] })
  -- the permit is there: create_task, _tasks.add
  create :
      (m p : ℕ)
      → w.waiting ≡ some m
      → w.permits ≡ suc p
      → Step w (record w {
        waiting = none;
        permits = p;
        tasks = m ∷ w.tasks;
        late = count_late w.stopping w.late;
      })
  -- _on_task_done: _tasks.discard, _sem.release
  finish :
      (m : ℕ) (before after : List ℕ)
      → w.tasks ≡ before ++ m ∷ after
      → Step w (record w { permits = suc w.permits; tasks = before ++ after })
  stop : Step w (record w { stopping = true })

pub data Reach (w : Worker) : Worker → Type 0 where
  here : Reach w w
  next : {u v : Worker} → Reach w u → Step u v → Reach w v
