-- ===== src/Publish/Outcomes.antt =====
-- The ways in which publishing a message can end, with what each leaves in the queue and the table.
use delta_gateway_chat_woot.Base.{
  String, Bool, true, false, [], ◌∷◌, ◌≡◌, ◌⊎◌, inl, inr, refl, ap, ◌∙◌, if◌then◌else◌,
}
use delta_gateway_chat_woot.Base.Dict.{Dict}
use delta_gateway_chat_woot.Errors.{Exc, Result, ok, err, idempotency_key_already_processed_error}
use delta_gateway_chat_woot.Exec.{raise}
use delta_gateway_chat_woot.Values.{Members, obj}
use delta_gateway_chat_woot.Models.{Envelope, envelope_members}
use delta_gateway_chat_woot.Trace.{inject_trace_context}
use delta_gateway_chat_woot.World.{World}
use delta_gateway_chat_woot.World.Runs.{Ran, returned, unheard, unsent, moved, query-Ran}
use delta_gateway_chat_woot.Queue.{Pgmq, Json, on_queue, send, has_key, select_key, insert_key}
use delta_gateway_chat_woot.Queue.Processed.{
  add_key, mark-Ran, select-Ran, insert-keys, queue-insert,
}
use delta_gateway_chat_woot.Publish.{process_queue, publish_message}

module _ {Q : Type 0} (pg : Pgmq Q) (json : Json) (carrier : Dict String) where
  -- the queue with the text of `payload` at its end
  abbrev pub sent : String → Members → Q → Q
  sent queue_name payload =
      pg.send queue_name (json.dumps (obj (inject_trace_context carrier payload)))

  pub send-Ran :
      (queue_name : String) (payload : Members) (w : World Q)
      → Ran (on_queue (sent queue_name payload)) w (send pg json carrier queue_name (obj payload) w)
  unfolding send
  send-Ran queue_name payload w =
      query-Ran ("operation" ∷ "queue_name" ∷ []) (on_queue (sent queue_name payload)) w

  -- `o` is how publishing `envelope` under `key` in the world `w` ended.
  pub data Outcome (queue_name key : String) (envelope : Envelope) (w : World Q)
      (o : Result (Unit {0}) × World Q) : Type 0 where
    -- the key was there, and nothing was sent
    repeated :
        has_key key w.processed_keys ≡ true
        → o.0 ≡ err idempotency_key_already_processed_error
        → o.1.queue ≡ w.queue
        → o.1.processed_keys ≡ w.processed_keys
        → Outcome queue_name key envelope w o
    -- sent once, and marked
    published :
        has_key key w.processed_keys ≡ false
        → o.0 ≡ ok tt
        → o.1.queue ≡ sent queue_name (envelope_members envelope) w.queue
        → o.1.processed_keys ≡ add_key key w.processed_keys
        → Outcome queue_name key envelope w o
    -- an error before anything was sent
    not_sent :
        (e : Exc)
        → o.0 ≡ err e
        → o.1.queue ≡ w.queue
        → o.1.processed_keys ≡ w.processed_keys
        → Outcome queue_name key envelope w o
    -- an error behind the sending: the message is in the queue, the key may be marked or not
    unfinished :
        (e : Exc)
        → has_key key w.processed_keys ≡ false
        → o.0 ≡ err e
        → o.1.queue ≡ sent queue_name (envelope_members envelope) w.queue
        → (o.1.processed_keys ≡ w.processed_keys)
          ⊎ (o.1.processed_keys ≡ add_key key w.processed_keys)
        → Outcome queue_name key envelope w o

module _ {Q : Type 0} (pg : Pgmq Q) (json : Json) (carrier : Dict String) (queue_name key : String)
    (envelope : Envelope) (w : World Q) where
  abbrev Ends : Result (Unit {0}) × World Q → Type 0
  Ends o = Outcome pg json carrier queue_name key envelope w o

  abbrev posted : Q
  posted = sent pg json carrier queue_name (envelope_members envelope) w.queue

  module _ (fresh : has_key key w.processed_keys ≡ false) where
    marked :
        (v : World Q) (o : Result (Unit {0}) × World Q)
        → Ran (insert_key key) v o
        → v.queue ≡ posted
        → v.processed_keys ≡ w.processed_keys
        → Ends o
    marked v o (returned p fs e) hq hk =
        published fresh (ap (λ x. x.0) e)
          (ap (λ x. x.1.queue) e ∙ queue-insert key (moved v p fs) ∙ hq)
          (ap (λ x. x.1.processed_keys) e ∙ insert-keys key (moved v p fs) ∙ ap (add_key key) hk)
    marked v o (unheard p fs x e) hq hk =
        unfinished x fresh (ap (λ x. x.0) e)
          (ap (λ x. x.1.queue) e ∙ queue-insert key (moved v p fs) ∙ hq)
          (inr
            (ap (λ x. x.1.processed_keys) e ∙ insert-keys key (moved v p fs) ∙ ap (add_key key) hk))
    marked v o (unsent p fs x e) hq hk =
        unfinished x fresh (ap (λ x. x.0) e) (ap (λ x. x.1.queue) e ∙ hq)
          (inl (ap (λ x. x.1.processed_keys) e ∙ hk))

    sent-Outcome :
        (v : World Q)
        → v.queue ≡ w.queue
        → v.processed_keys ≡ w.processed_keys
        → Ends (process_queue pg json carrier queue_name key envelope v)
    unfolding process_queue on_queue
    sent-Outcome v hq hk =
        elim (send-Ran pg json carrier queue_name (envelope_members envelope) v) [
          | returned p fs e ↦ rw e (
              marked _ _ (mark-Ran key _)
                (ap (sent pg json carrier queue_name (envelope_members envelope)) hq) hk)
          | unheard p fs x e ↦ rw e (
              unfinished x fresh refl
                (ap (sent pg json carrier queue_name (envelope_members envelope)) hq) (inl hk))
          | unsent p fs x e ↦ rw e (not_sent x refl hq hk)
        ]

  looked :
      (b : Bool) (v : World Q)
      → has_key key w.processed_keys ≡ b
      → v.queue ≡ w.queue
      → v.processed_keys ≡ w.processed_keys
      → Ends (
          (if b
              then raise idempotency_key_already_processed_error
              else process_queue pg json carrier queue_name key envelope)
            v)
  looked true v h hq hk = repeated h refl hq hk
  looked false v h hq hk = sent-Outcome h v hq hk

  -- However the database behaves, publishing ends in one of the four ways.
  pub publish_message-Outcome : Ends (publish_message pg json carrier queue_name key envelope w)
  unfolding publish_message select_key
  publish_message-Outcome = elim (select-Ran key w) [
    | returned p fs e ↦ rw e (looked (has_key key w.processed_keys) (moved w p fs) refl refl refl)
    | unheard p fs x e ↦ rw e (not_sent x refl refl refl)
    | unsent p fs x e ↦ rw e (not_sent x refl refl refl)
  ]
