-- ===== src/Worker/Delivery/Rates.antt =====
-- How the two workers' messages end.
use delta_gateway_chat_woot.Base.{pos, suc, ℕ, true, ltb, [], ◌≡◌, refl, ◌∙◌, String}
use delta_gateway_chat_woot.Base.Dict.{Dict}
use delta_gateway_chat_woot.Errors.{Exc, rate_limit_error, transient_after, ok, err}
use delta_gateway_chat_woot.Values.{Value, obj, Members, get_value}
use delta_gateway_chat_woot.Values.Text.{text_of}
use delta_gateway_chat_woot.Registry.{Channel, get_channel}
use delta_gateway_chat_woot.World.{World}
use delta_gateway_chat_woot.Queue.{Pgmq}
use delta_gateway_chat_woot.Worker.{handle_with_retries}
use delta_gateway_chat_woot.Worker.Settlement.{handle_with_retries-settles}
use delta_gateway_chat_woot.Worker.Delivery.{from_chatwoot_message, rate_limited}

module _ {Q : Type 0} (channels : Dict (Channel (World Q))) (payload : Members) (name : Value)
    (c : Channel (World Q)) (is_named : get_value "channel" (obj payload) ≡ ok name)
    (is_found : get_channel (text_of name) channels ≡ ok c) where
  pub from_chatwoot-raises :
      (e : Exc) (w v : World Q)
      → c.send_to_user (obj payload) w ≡ (err e, v)
      → from_chatwoot_message channels payload w ≡ (err (rate_limited e), v)
  unfolding from_chatwoot_message
  from_chatwoot-raises e w v h = rw is_named (rw is_found (rw h refl))

  -- For a message of a registered channel, on a database that answers after the sending: if the
  -- channel's service refuses the message for its rate, it stays in the queue, hidden for the
  -- seconds that the service asks for, as long as fewer than ten deliveries were made.
  pub rate_limit-hides :
      (pg : Pgmq Q) (queue_name : String) (msg_id n d : ℕ) (w v : World Q)
      → c.send_to_user (obj payload) w ≡ (err (rate_limit_error (pos (suc d))), v)
      → v.faults ≡ []
      → ltb n 10 ≡ true
      → (handle_with_retries pg queue_name
          (from_chatwoot_message channels)
          msg_id
          payload
          n
          w).1.queue
        ≡ pg.set_vt queue_name msg_id (suc d) v.queue
  unfolding rate_limited
  rate_limit-hides pg queue_name msg_id n d w v h quiet few =
      handle_with_retries-settles pg queue_name msg_id (from_chatwoot_message channels) payload n w
        (err (transient_after (pos (suc d)))) v (from_chatwoot-raises _ w v h) quiet
      ∙ rw few refl
