-- ===== src/Examples/Storage.antt =====
-- The theorems on publishing, keys, aliases and actor ids at sample worlds.
use delta_gateway_chat_woot.Base.{
  str_eq, ◌||◌, Bool, true, pos, String, true, false, [], ◌∷◌, Option, none, some, ◌≡◌, ◌≢◌, inl,
  refl, ap, arith, count,
}
use delta_gateway_chat_woot.Errors.{ok, err, type_error, value_error, os_error, transient_default}
use delta_gateway_chat_woot.Models.{envelope_members, text, id_text}
use delta_gateway_chat_woot.Values.{str, obj, Members, obj_of}
use delta_gateway_chat_woot.Base.Dict.{Dict}
use delta_gateway_chat_woot.Values.{find}
use delta_gateway_chat_woot.Trace.{
  trace_context_key, inject_trace_context, extract_trace_context, non_empty,
}
use delta_gateway_chat_woot.Trace.RoundTrip.{extract-inject}
use delta_gateway_chat_woot.World.{
  World, refused, translating, on_connection, get_pg_pool, statement, is_transient_postgres_error,
}
use delta_gateway_chat_woot.Queue.{
  select_key, insert_key, has_key, send, read, delete, archive, set_vt, is_already_processed,
  mark_as_processed, wait_for_notification,
}
use delta_gateway_chat_woot.Queue.Processed.{look-mark}
use delta_gateway_chat_woot.Queue.Errors.{IsTranslated, operations-IsTranslated}
use delta_gateway_chat_woot.Publish.{publish_message, process_queue}
use delta_gateway_chat_woot.Publish.Outcomes.{Outcome, sent, publish_message-Outcome}
use delta_gateway_chat_woot.Publish.Once.{redeliver, queue-redeliver, publish_message_returns}
use delta_gateway_chat_woot.Alias.{
  upsert, upsert_alias, touch_alias, real_id_of, get_or_create_alias, resolve_alias,
}
use delta_gateway_chat_woot.Alias.RoundTrip.{now, IsWellFormed, resolve-get_or_create_alias}
use delta_gateway_chat_woot.Alias.Invariant.{
  get_or_create, resolve, after_uses, after_uses-IsWellFormed,
}
use delta_gateway_chat_woot.Alias.Failures.{alias_store_type_error}
use delta_gateway_chat_woot.Identity.{
  draw, insert_actor, actor_id_of, external_id_of, get_or_create_actor_id, resolve_external_id,
  create_actor_id,
}
use delta_gateway_chat_woot.Identity.RoundTrip.{IsConsistent, resolve-get_or_create_actor_id}
use delta_gateway_chat_woot.Identity.Race.{create_actor_id-race}
use delta_gateway_chat_woot.Identity.Quiet.{new_actor}
use delta_gateway_chat_woot.Envelope.{build_idempotency_key, extra_hash}
use delta_gateway_chat_woot.Envelope.Keys.{build_idempotency_key-inj}
use delta_gateway_chat_woot.Examples.{Log, pgmq, json, calm, letter, unary, unary-inj, twelve_zeros}

-- The letter's key is new.
new_key : has_key "key" calm.processed_keys ≡ false
unfolding has_key
new_key = refl

publish_message_returns_example :
    ((publish_message pgmq json [] "incoming" "key" letter calm).0 ≡ ok tt)
    × ((publish_message pgmq json [] "incoming" "key" letter calm).1.queue
        ≡ sent pgmq json [] "incoming" (envelope_members letter) [])
    × (has_key "key" (publish_message pgmq json [] "incoming" "key" letter calm).1.processed_keys
        ≡ true)
publish_message_returns_example =
    publish_message_returns pgmq json [] "incoming" "key" letter calm refl new_key

published : (publish_message pgmq json [] "incoming" "key" letter calm).0 ≡ ok tt
unfolding publish_message process_queue send is_already_processed mark_as_processed translating
    on_connection get_pg_pool statement select_key insert_key has_key
published = refl

queue-redeliver_example :
    (redeliver pgmq json [] "incoming" "key" letter 2
      (publish_message pgmq json [] "incoming" "key" letter calm).1).queue
    ≡ sent pgmq json [] "incoming" (envelope_members letter) []
queue-redeliver_example = queue-redeliver pgmq json [] "incoming" "key" letter 2 calm published

publish_message-Outcome_example :
    Outcome pgmq json [] "incoming" "key" letter calm
      (publish_message pgmq json [] "incoming" "key" letter calm)
publish_message-Outcome_example = publish_message-Outcome pgmq json [] "incoming" "key" letter calm

-- the alias of a first user
abbrev aliased : World Log
aliased = (get_or_create_alias unary "telegram" "42" calm).1

alias_returned : (get_or_create_alias unary "telegram" "42" calm).0 ≡ ok ""
unfolding get_or_create_alias translating on_connection get_pg_pool statement upsert_alias upsert
alias_returned = refl

alias_resolved : (resolve_alias "" aliased).0 ≡ ok (some "42")
unfolding resolve_alias get_or_create_alias translating on_connection get_pg_pool statement
    upsert_alias touch_alias real_id_of upsert
alias_resolved = refl

abbrev owner : Option String
owner = some "42"

resolve-get_or_create_alias_example : owner ≡ some "42"
resolve-get_or_create_alias_example =
    resolve-get_or_create_alias unary unary-inj "telegram" "42" "" calm aliased owner tt
      alias_returned now alias_resolved

after_uses-IsWellFormed_example :
    IsWellFormed unary
      (after_uses unary
        (get_or_create "telegram" "42" ∷ resolve "" ∷ get_or_create "email" "a" ∷ [])
        calm).uuids
      (after_uses unary
        (get_or_create "telegram" "42" ∷ resolve "" ∷ get_or_create "email" "a" ∷ [])
        calm).contact_aliases
after_uses-IsWellFormed_example =
    after_uses-IsWellFormed unary unary-inj
      (get_or_create "telegram" "42" ∷ resolve "" ∷ get_or_create "email" "a" ∷ []) calm tt

-- The next statement meets a broken connection.
abbrev broken : World Log
broken = record calm { faults = some (refused os_error) ∷ [] }

is_transient : is_transient_postgres_error os_error ≡ true
unfolding is_transient_postgres_error
is_transient = refl

alias_store_type_error_example :
    ((get_or_create_alias unary "telegram" "42" broken).0 ≡ err type_error)
    × ((resolve_alias "u" broken).0 ≡ err type_error)
    × ((is_already_processed "key" broken).0 ≡ err transient_default)
alias_store_type_error_example =
    alias_store_type_error unary "telegram" "42" "u" "key" broken os_error [] refl (inl refl)
      is_transient

nobody : IsConsistent "email" []
unfolding actor_id_of
nobody x a h = cc h

nobody_has : (channel actor_id : String) → external_id_of channel actor_id [] ≡ none
unfolding external_id_of
nobody_has channel actor_id = refl

no_actor : (channel external_id : String) → actor_id_of channel external_id [] ≡ none
unfolding actor_id_of
no_actor channel external_id = refl

resolve-get_or_create_actor_id_example :
    (a : String) × ((get_or_create_actor_id unary "email" "ann@example.org" calm).0 ≡ ok a)
    × ((resolve_external_id "email" a
          (get_or_create_actor_id unary "email" "ann@example.org" calm).1).0
        ≡ ok "ann@example.org")
    × IsConsistent "email"
        (get_or_create_actor_id unary "email" "ann@example.org" calm).1.identity_mappings
resolve-get_or_create_actor_id_example =
    resolve-get_or_create_actor_id unary "email" "ann@example.org" calm refl nobody
      (nobody_has "email" _)

different :
    new_actor unary "email" "a" calm
    ≢ new_actor unary "email" "a" (create_actor_id unary "email" "a" calm).1
unfolding create_actor_id statement insert_actor draw
different e = omega (arith, ap count e)

create_actor_id-race_example :
    ((create_actor_id unary "email" "a" calm).0 ≡ ok (new_actor unary "email" "a" calm))
    × ((create_actor_id unary "email" "a" (create_actor_id unary "email" "a" calm).1).0
        ≡ ok (new_actor unary "email" "a" (create_actor_id unary "email" "a" calm).1))
    × ((resolve_external_id "email"
          (new_actor unary "email" "a" calm)
          (create_actor_id unary "email" "a" (create_actor_id unary "email" "a" calm).1).1).0
        ≡ err value_error)
create_actor_id-race_example =
    create_actor_id-race unary "email" "a" calm refl refl (no_actor "email" "a")
      (nobody_has "email" _) different

abbrev bot : String
bot = "bot"

abbrev sample_key : String
sample_key = "in:bot:000000000000:000000000000:000000000000"

key_built : build_idempotency_key twelve_zeros "in" "bot" (text "42") "1" [] ≡ ok sample_key
unfolding build_idempotency_key extra_hash
key_built = refl

build_idempotency_key-inj_example :
    (bot ≡ bot)
    × (extra_hash twelve_zeros [] ≡ extra_hash twelve_zeros [])
    × (twelve_zeros (id_text (text "42")) ≡ twelve_zeros (id_text (text "42")))
    × (twelve_zeros "1" ≡ twelve_zeros "1")
build_idempotency_key-inj_example =
    build_idempotency_key-inj twelve_zeros (λ s. refl) "in" bot bot "1" "1" (text "42") (text "42")
      [] [] sample_key key_built key_built

abbrev content : Members
content = obj_of (("text", str "hello") ∷ [])

unmarked : find trace_context_key content ≡ none
unfolding find
unmarked = refl

abbrev trace : Dict String
trace = ("traceparent", "00-1") ∷ []

extract-inject_example :
    extract_trace_context (inject_trace_context trace content) ≡ (non_empty trace, content)
extract-inject_example = extract-inject trace content unmarked

operations-IsTranslated_example :
    IsTranslated (send pgmq json [] "incoming" (obj content))
    × IsTranslated (read pgmq "incoming" 30 10)
    × IsTranslated (delete pgmq "incoming" 1)
    × IsTranslated (archive pgmq "incoming" 1)
    × IsTranslated (set_vt pgmq "incoming" 1 (pos 5))
    × IsTranslated (is_already_processed {Q = Log} "key")
    × IsTranslated (mark_as_processed {Q = Log} "key")
    × IsTranslated (wait_for_notification {Q = Log} "incoming" true)
operations-IsTranslated_example =
    operations-IsTranslated pgmq json [] "incoming" "key" (obj content) 1 30 10 (pos 5) true

marked : (mark_as_processed {Q = Log} "key" calm).0 ≡ ok tt
unfolding mark_as_processed translating on_connection get_pg_pool statement
marked = refl

looked : (is_already_processed "old" (mark_as_processed {Q = Log} "key" calm).1).0 ≡ ok true
unfolding is_already_processed mark_as_processed translating on_connection get_pg_pool statement
    insert_key select_key has_key
looked = refl

abbrev answer : Bool
answer = true

look-mark_example : answer ≡ (str_eq "old" "key" || has_key "old" calm.processed_keys)
look-mark_example =
    look-mark "key" "old" calm (mark_as_processed {Q = Log} "key" calm).1 true marked refl looked
