-- ===== src/Publish/Once.antt =====
-- Webhooks that are delivered again: the publishing step of the message processors, repeated.
use delta_gateway_chat_woot.Base.{
  ℕ, zero, suc, String, eq_refl, true, false, List, [], ◌≡◌, refl, ap, ◌∙◌,
}
use delta_gateway_chat_woot.Base.Dict.{Dict}
use delta_gateway_chat_woot.Errors.{Result, ok}
use delta_gateway_chat_woot.Models.{Envelope, envelope_members}
use delta_gateway_chat_woot.World.{World}
use delta_gateway_chat_woot.World.Runs.{moved}
use delta_gateway_chat_woot.Queue.Quiet.{with_queue, send_quiet, mark_quiet, look_quiet}
use delta_gateway_chat_woot.Queue.{Pgmq, Json, has_key}
use delta_gateway_chat_woot.Queue.Processed.{add_key, has_key-add_key}
use delta_gateway_chat_woot.Publish.{process_queue, publish_message}
use delta_gateway_chat_woot.Publish.Outcomes.{
  sent, repeated, published, not_sent, unfinished, publish_message-Outcome,
}

has_key-add_self : (key : String) (keys : List String) → has_key key (add_key key keys) ≡ true
has_key-add_self key keys = rw (has_key-add_key key key keys, eq_refl key)

module _ {Q : Type 0} (pg : Pgmq Q) (json : Json) (carrier : Dict String) (queue_name key : String)
    (envelope : Envelope) where
  abbrev attempt : World Q → Result (Unit {0}) × World Q
  attempt w = publish_message pg json carrier queue_name key envelope w

  -- Further deliveries of the same message, whose replies the sender ignores.
  pub redeliver : ℕ → World Q → World Q
  redeliver zero w = w
  redeliver (suc n) w = redeliver n (attempt w).1

  -- With the key in the table, an attempt fails and changes neither queue nor table.
  seen :
      (w : World Q)
      → has_key key w.processed_keys ≡ true
      → ((attempt w).1.queue ≡ w.queue) × ((attempt w).1.processed_keys ≡ w.processed_keys)
  seen w h = elim (publish_message-Outcome pg json carrier queue_name key envelope w) [
    | repeated k r q t ↦ (q, t)
    | published k r q t ↦ cc (h, k)
    | not_sent x r q t ↦ (q, t)
    | unfinished x k r q t ↦ cc (h, k)
  ]

  seen_redeliver :
      (n : ℕ) (w : World Q) → has_key key w.processed_keys ≡ true → (redeliver n w).queue ≡ w.queue
  unfolding redeliver
  seen_redeliver zero w h = refl
  seen_redeliver (suc n) w h =
      let (q, t) = seen w h in seen_redeliver n (attempt w).1 (ap (has_key key) t ∙ h) ∙ q

  -- Once publishing has returned, the queue holds the message once more than before, whatever the
  -- database does during any number of further deliveries of it.
  pub queue-redeliver :
      (n : ℕ) (w : World Q)
      → (attempt w).0 ≡ ok tt
      → (redeliver n (attempt w).1).queue
        ≡ sent pg json carrier queue_name (envelope_members envelope) w.queue
  queue-redeliver n w h = elim (publish_message-Outcome pg json carrier queue_name key envelope w) [
    | repeated k r q t ↦ cc (h, r)
    | published k r q t ↦
        seen_redeliver n (attempt w).1 (ap (has_key key) t ∙ has_key-add_self key w.processed_keys)
        ∙ q
    | not_sent x r q t ↦ cc (h, r)
    | unfinished x k r q t ↦ cc (h, r)
  ]

  process_queue_returns :
      (w : World Q)
      → w.faults ≡ []
      → (process_queue pg json carrier queue_name key envelope w).0 ≡ ok tt
  unfolding process_queue
  process_queue_returns w h =
      rw (send_quiet pg queue_name w h json carrier (envelope_members envelope)) (
        ap (λ o. o.0)
          (mark_quiet key
            (with_queue w (sent pg json carrier queue_name (envelope_members envelope) w.queue))
            refl))

  publish_message-ok :
      (w : World Q) → w.faults ≡ [] → has_key key w.processed_keys ≡ false → (attempt w).0 ≡ ok tt
  unfolding publish_message
  publish_message-ok w h k =
      rw (look_quiet key w h, k) (process_queue_returns (moved w true []) refl)

  -- While no statement fails, publishing a message whose key is new returns, with the message sent
  -- to the queue once and its key marked.
  pub publish_message_returns :
      (w : World Q)
      → w.faults ≡ []
      → has_key key w.processed_keys ≡ false
      → ((attempt w).0 ≡ ok tt)
        × ((attempt w).1.queue
            ≡ sent pg json carrier queue_name (envelope_members envelope) w.queue)
        × (has_key key (attempt w).1.processed_keys ≡ true)
  publish_message_returns w h k =
      let done = publish_message-ok w h k in
      elim (publish_message-Outcome pg json carrier queue_name key envelope w) [
        | repeated m r q t ↦ cc (m, k)
        | published m r q t ↦ (done, q, ap (has_key key) t ∙ has_key-add_self key w.processed_keys)
        | not_sent x r q t ↦ cc (done, r)
        | unfinished x m r q t ↦ cc (done, r)
      ]
