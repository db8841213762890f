-- ===== src/Queue.antt =====
-- infrastructure/pg_message_queue.py: messages, processed keys, and notifications. The functions of
-- the pgmq extension and the JSON codec are parameters.
pub mod Errors
pub mod Processed
pub mod Quiet
use delta_gateway_chat_woot.Base.{
  ℕ, ℤ, pos, pos_part, is_nonpos, String, str_eq, Bool, true, false, ◌||◌, List, [], ◌∷◌, Option,
  none, some, if◌then◌else◌, any,
}
use delta_gateway_chat_woot.Base.Dict
use delta_gateway_chat_woot.Base.Dict.{Dict}
use delta_gateway_chat_woot.Errors.{
  Exc, Result, ok, err, value_error, type_error, duplicate_database_error, interface_error, ◌>>=ᵣ◌,
}
use delta_gateway_chat_woot.Exec.{
  Exec, ◌>>=◌, ◌>>◌, pure, raise, lift, gets, attempt, modify, when, for_each,
}
use delta_gateway_chat_woot.Values.{Value, null, bool, int, str, arr, obj, Members}
use delta_gateway_chat_woot.Trace.{inject_trace_context}
use delta_gateway_chat_woot.World.{
  World, statement, nothing, translating, on_connection, close_pg_pool, get_connection,
}

-- a row that `pgmq.read` returns
pub record Row : Type 0 where
  pub msg_id : ℕ
  pub read_ct : ℕ
  pub message : Value

-- The functions of the pgmq extension, by the queue's name.
pub record Pgmq (Q : Type 0) : Type 0 where
  pub send : String → String → Q → Q
  pub read : String → (vt : ℕ) → (limit : ℕ) → Q → List Row × Q
  pub delete : String → ℕ → Q → Q
  pub archive : String → ℕ → Q → Q
  pub set_vt : String → ℕ → (vt : ℕ) → Q → Q

-- json.dumps and json.loads
pub record Json : Type 0 where
  pub dumps : Value → String
  pub loads : String → Result Value

unfoldable pub on_queue : {Q : Type 0} → (Q → Q) → World Q → Unit {0} × World Q
on_queue f w = (tt, record w { queue = f w.queue })

-- The dictionary that a payload stands for.
payload_dict : Json → Value → Result Members
payload_dict json (obj m) = ok m
payload_dict json (str t) = json.loads t >>=ᵣ λ v. elim v [ obj m ↦ ok m | _ ↦ err value_error ]
payload_dict json _ = err type_error

-- delay_seconds = 1 if it is not positive, then int(delay_seconds)
unfoldable pub vt_seconds : ℤ → ℕ
vt_seconds d = if is_nonpos d then 1 else pos_part d

module _ {Q : Type 0} (pg : Pgmq Q) where
  -- `carrier` is what OpenTelemetry injects at this call.
  unfoldable pub send : Json → Dict String → String → Value → Exec (World Q) (Unit {0})
  unfolding on_queue payload_dict
  send json carrier queue_name payload = translating ("operation" ∷ "queue_name" ∷ []) (do
    m ← lift (payload_dict json payload)
    let text = json.dumps (obj (inject_trace_context carrier m))
    on_connection (on_queue (pg.send queue_name text)))

  take_rows : String → ℕ → ℕ → World Q → List Row × World Q
  take_rows queue_name vt limit w =
      let (rows, q) = pg.read queue_name vt limit w.queue in (rows, record w { queue = q })

  unfoldable pub read : String → ℕ → ℕ → Exec (World Q) (List Row)
  unfolding take_rows
  read queue_name vt limit =
      translating ("operation" ∷ "queue_name" ∷ []) (on_connection (take_rows queue_name vt limit))

  unfoldable pub delete : String → ℕ → Exec (World Q) (Unit {0})
  unfolding on_queue
  delete queue_name msg_id =
      translating ("operation" ∷ "queue_name" ∷ "msg_id" ∷ [])
        (on_connection (on_queue (pg.delete queue_name msg_id)))

  unfoldable pub archive : String → ℕ → Exec (World Q) (Unit {0})
  unfolding on_queue
  archive queue_name msg_id =
      translating ("operation" ∷ "queue_name" ∷ "msg_id" ∷ [])
        (on_connection (on_queue (pg.archive queue_name msg_id)))

  unfoldable pub set_vt : String → ℕ → ℤ → Exec (World Q) (Unit {0})
  unfolding on_queue vt_seconds
  set_vt queue_name msg_id delay_seconds =
      translating ("operation" ∷ "queue_name" ∷ "msg_id" ∷ [])
        (on_connection (on_queue (pg.set_vt queue_name msg_id (vt_seconds delay_seconds))))

is_closed : Option Bool → Bool
is_closed none = true
is_closed (some closed) = closed

unfoldable pub has_key : String → List String → Bool
has_key key keys = any (str_eq key) keys

module _ {Q : Type 0} where
  -- SELECT 1 FROM pgmq.processed_keys WHERE key = $1
  unfoldable pub select_key : String → World Q → Bool × World Q
  select_key key w = (has_key key w.processed_keys, w)

  -- INSERT ... ON CONFLICT (key) DO NOTHING
  unfoldable pub insert_key : String → World Q → Unit {0} × World Q
  insert_key key w =
      if has_key key w.processed_keys
      then (tt, w)
      else (tt, record w { processed_keys = key ∷ w.processed_keys })

  unfoldable pub is_already_processed : String → Exec (World Q) Bool
  unfolding select_key
  is_already_processed key = translating ("operation" ∷ "key" ∷ []) (on_connection (select_key key))

  unfoldable pub mark_as_processed : String → Exec (World Q) (Unit {0})
  unfolding insert_key
  mark_as_processed key = translating ("operation" ∷ "key" ∷ []) (on_connection (insert_key key))

  -- The first part: a listener's connection, with the event set so that the caller looks again.
  unfoldable pub ensure_listener : String → Exec (World Q) (Unit {0})
  unfolding is_closed
  ensure_listener queue_name = translating ("operation" ∷ "queue_name" ∷ []) (do
    closed ← gets (λ w. is_closed (Dict.get queue_name w.listeners))
    when closed (do
      get_connection
      statement nothing
      modify (λ w. record w { listeners = Dict.put queue_name false w.listeners; event = true })))

  -- The second part; `arrived` says whether a callback sets the event before the timeout.
  unfoldable pub await_event : Bool → Exec (World Q) Bool
  await_event arrived w =
      if w.event || arrived then (ok true, record w { event = false }) else (ok false, w)

  unfoldable pub wait_for_notification : String → Bool → Exec (World Q) Bool
  wait_for_notification queue_name arrived = do ensure_listener queue_name; await_event arrived

  -- The callback of `queue_name`'s listener, called for a notification on `channel`'s queue.
  unfoldable pub set_event : String → String → World Q → World Q
  set_event queue_name channel w =
      if str_eq channel queue_name then record w { event = true } else w

  close_listener : String × Bool → Exec (World Q) (Unit {0})
  close_listener (queue_name, closed) =
      attempt
        (statement nothing
          >> modify (λ w. record w { listeners = Dict.put queue_name true w.listeners }))
        (λ e. elim e [ interface_error ↦ pure tt | e' ↦ raise e' ])

  unfoldable pub close : Exec (World Q) (Unit {0})
  unfolding close_listener
  close = do
    modify (λ w. record w { event = true })
    listeners ← gets (λ w. w.listeners)
    for_each listeners close_listener
    close_pg_pool

  -- CREATE DATABASE; the database may be there.
  ensure_db_exists : Exec (World Q) (Unit {0})
  ensure_db_exists =
      attempt (statement nothing)
        (λ e. elim e [ duplicate_database_error ↦ pure tt | e' ↦ raise e' ])

  -- The statements of ensure_extension_and_tables change nothing that the model holds.
  ensure_extension_and_tables : Exec (World Q) (Unit {0})
  ensure_extension_and_tables = do
    statement nothing
    statement nothing
    statement nothing
    statement nothing
    statement nothing
    statement nothing
    statement nothing

  unfoldable pub ensure_database_ready : Exec (World Q) (Unit {0})
  unfolding ensure_db_exists ensure_extension_and_tables
  ensure_database_ready = do
    get_connection
    ensure_db_exists
    statement nothing
    get_connection
    ensure_extension_and_tables
    statement nothing
