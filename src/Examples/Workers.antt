-- ===== src/Examples/Workers.antt =====
-- The theorems on the workers and the startup at sample messages.
use delta_gateway_chat_woot.Base.{
  ℕ, suc, ◌≤◌, ℤ, pos, leb, true, false, [], ◌∷◌, none, some, ◌≡◌, refl, arith,
}
use delta_gateway_chat_woot.Base.Dict.{Dict, get}
use delta_gateway_chat_woot.Errors.{
  transient_error, transient_default, connection_error, fatal_error, rate_limit_error, Result, ok,
  err,
}
use delta_gateway_chat_woot.Exec.{Exec, raise}
use delta_gateway_chat_woot.Models.{ChannelDeliveryResult}
use delta_gateway_chat_woot.Values.{
  Value, str, obj, obj_of, end, Members, find, get_value, get_default,
}
use delta_gateway_chat_woot.Values.Text.{text_of}
use delta_gateway_chat_woot.World.{
  World, refused, translating, on_connection, get_pg_pool, statement, get_connection,
}
use delta_gateway_chat_woot.Queue.{read, wait_for_notification, ensure_listener}
use delta_gateway_chat_woot.Registry.{Channel, get_channel}
use delta_gateway_chat_woot.Worker.{Outcome, handle_with_retries, handle_error}
use delta_gateway_chat_woot.Worker.Settlement.{
  settle, contract, allowance, is_archived, fate_of, handle_with_retries-settles,
  handle_error-archives,
}
use delta_gateway_chat_woot.Worker.Tasks.{
  Worker, new_worker, receive, request, create, stop, Reach, here, next,
}
use delta_gateway_chat_woot.Worker.Tasks.Limits.{Reach-task_limit}
use delta_gateway_chat_woot.Worker.Delivery.{from_chatwoot_message}
use delta_gateway_chat_woot.Worker.Delivery.Rates.{rate_limit-hides}
use delta_gateway_chat_woot.Worker.Loop.{turn, handle_no_messages, safe_read_queue, turn-raises}
use delta_gateway_chat_woot.Startup.{wait_until_database_ready}
use delta_gateway_chat_woot.Startup.Attempts.{wait_until_database_ready-ends}
use delta_gateway_chat_woot.Examples.{Log, pgmq, calm, sample_channel}

-- a handler whose service is away
abbrev away : Members → Exec (World Log) (Unit {0})
away payload = raise transient_default

handle_with_retries-settles_example :
    (handle_with_retries pgmq "incoming" away 1 end 3 calm).1.queue
    ≡ settle pgmq "incoming" 1 (contract (err transient_default) 3) []
handle_with_retries-settles_example =
    handle_with_retries-settles pgmq "incoming" 1 away end 3 calm (err transient_default) calm refl
      refl

handle_error-archives_example :
    (o : Outcome) × ((handle_error pgmq "incoming" 1 fatal_error 1 calm).0 ≡ ok o)
    × (is_archived o ≡ leb (allowance fatal_error) 1)
    × ((handle_error pgmq "incoming" 1 fatal_error 1 calm).1.queue
        ≡ settle pgmq "incoming" 1 (fate_of fatal_error o) [])
handle_error-archives_example = handle_error-archives pgmq "incoming" 1 fatal_error 1 calm refl

-- A worker with two permits reads a message, asks for a permit, and is stopped before it gets it.
abbrev w1 : Worker
w1 = record (new_worker 2) { batch = 8 ∷ [] }

abbrev w2 : Worker
w2 = record w1 { batch = []; waiting = some 8 }

abbrev w3 : Worker
w3 = record w2 { stopping = true }

abbrev w4 : Worker
w4 = record w3 { waiting = none; permits = 1; tasks = 8 ∷ []; late = 1 }

run : Reach (new_worker 2) w4
run =
    next
      (next (next (next here (receive (8 ∷ []) refl refl refl)) (request 8 [] refl refl refl)) stop)
      (create 8 1 refl refl)

Reach-task_limit_example : (1 ≤ 2) × (w4.tasks ≡ [] → w4.permits ≡ 2)
Reach-task_limit_example = Reach-task_limit 2 w4 run

-- a channel whose service limits the rate
abbrev limited : Value → Exec (World Log) ChannelDeliveryResult
limited v = raise (rate_limit_error (pos 30))

abbrev to_telegram : Members
to_telegram = obj_of (("channel", str "telegram") ∷ [])

abbrev registered : Dict (Channel (World Log))
registered = ("telegram", sample_channel limited) ∷ []

named : get_value "channel" (obj to_telegram) ≡ ok (str "telegram")
unfolding get_value get_default find
named = refl

found : get_channel (text_of (str "telegram")) registered ≡ ok (sample_channel limited)
unfolding get_channel text_of get
found = refl

rate_limit-hides_example :
    (handle_with_retries pgmq "outgoing"
      (from_chatwoot_message registered)
      4
      to_telegram
      2
      calm).1.queue
    ≡ pgmq.set_vt "outgoing" 4 30 []
rate_limit-hides_example =
    rate_limit-hides registered to_telegram (str "telegram") (sample_channel limited) named found
      pgmq "outgoing" 4 2 29 calm calm refl refl refl

-- a database that is away
abbrev refusing : ℕ → Result (Unit {0}) × ℕ
refusing n = (err transient_default, suc n)

refusing-bounded : (s k : ℕ) (delay : ℤ) → (refusing s).0 ≡ err (transient_error k delay) → k ≤ 10
refusing-bounded s k delay h = ground (arith, h)

wait_until_database_ready-ends_example :
    (o : Result (Unit {0}) × ℕ) × (wait_until_database_ready refusing 10 1 0 ≡ some o)
wait_until_database_ready-ends_example =
    wait_until_database_ready-ends refusing 10 refusing-bounded 9 1 0 (omega arith)

-- The read is answered, and the connection of the listener is refused.
abbrev deaf : World Log
deaf = record calm { faults = none ∷ some (refused connection_error) ∷ [] }

deaf-raises : (turn pgmq "incoming" 60 5 false deaf).0 ≡ err transient_default
unfolding turn handle_no_messages safe_read_queue read translating on_connection get_pg_pool
    statement wait_for_notification ensure_listener get get_connection
deaf-raises = refl

turn-raises_example :
    ((safe_read_queue pgmq "incoming" 60 5 deaf).0 ≡ ok [])
    × ((handle_no_messages pgmq "incoming" 60 5 false
          (safe_read_queue pgmq "incoming" 60 5 deaf).1).0
        ≡ err transient_default)
turn-raises_example = turn-raises pgmq "incoming" 60 5 false deaf transient_default deaf-raises
