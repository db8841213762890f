-- ===== src/Telegram/Transport/Classified.antt =====
-- What becomes of a queued message whose delivery over Telegram fails.
use delta_gateway_chat_woot.Base.{
  ℕ, zero, suc, ℤ, pos, negsuc, String, ltb, if◌then◌else◌, [], none, some, ◌≡◌, refl, ap, ◌∙◌,
}
use delta_gateway_chat_woot.Base.Dict.{Dict}
use delta_gateway_chat_woot.Errors.{
  Exc, telegram_network_error, client_connector_error, timeout_error, server_disconnected_error,
  telegram_retry_after, telegram_api_error, transient_after, ok, err,
}
use delta_gateway_chat_woot.Models.{Envelope}
use delta_gateway_chat_woot.Values.{Value, arr, nil, obj, Members, get_value, get_default}
use delta_gateway_chat_woot.Values.Text.{text_of}
use delta_gateway_chat_woot.World.{World}
use delta_gateway_chat_woot.Queue.{Pgmq}
use delta_gateway_chat_woot.Registry.{Channel, get_channel}
use delta_gateway_chat_woot.Worker.{handle_with_retries}
use delta_gateway_chat_woot.Worker.Settlement.{
  Fate, stored, hidden, contract, settle, handle_with_retries-settles,
}
use delta_gateway_chat_woot.Worker.Delivery.{from_chatwoot_message, rate_limited}
use delta_gateway_chat_woot.Worker.Delivery.Rates.{from_chatwoot-raises}
use delta_gateway_chat_woot.Telegram.Transport.{
  BotApi, classify, text_to_send, deliver, send_to_telegram_user,
}

abbrev pub seconds : ℤ → ℕ
seconds (pos (suc d)) = suc d
seconds _ = 1

-- Hidden for some seconds, up to ten deliveries.
abbrev pub again : ℕ → ℕ → Fate
again delay n = if ltb n 10 then hidden delay else stored

-- The network's failures are tried again after ten minutes, a rate limit after the delay that
-- Telegram asks for; what Telegram refuses is stored.
abbrev pub telegram_fate : Exc → ℕ → Fate
telegram_fate telegram_network_error n = again 600 n
telegram_fate client_connector_error n = again 600 n
telegram_fate timeout_error n = again 600 n
telegram_fate server_disconnected_error n = again 600 n
telegram_fate (telegram_retry_after delay) n = again (seconds delay) n
telegram_fate (telegram_api_error (some delay)) n = again (seconds delay) n
telegram_fate _ n = stored

rate-fate : (delay : ℤ) (n : ℕ) → contract (err (transient_after delay)) n ≡ again (seconds delay) n
rate-fate (pos zero) n = refl
rate-fate (pos (suc d)) n = refl
rate-fate (negsuc d) n = refl

contract-classify :
    (e : Exc) (n : ℕ) → contract (err (rate_limited (classify e))) n ≡ telegram_fate e n
unfolding rate_limited classify
contract-classify (telegram_retry_after delay) n = rate-fate delay n
contract-classify (telegram_api_error (some delay)) n = rate-fate delay n
contract-classify (telegram_api_error none) n = refl
contract-classify _ n = refl

module _ {S : Type 0} (api : BotApi S) where
  send-raises :
      (envelope : Envelope) (text : String) (attachments : Value) (e : Exc) (w v : S)
      → api.get_bot_by_connector_id envelope.connector_id ≡ ok tt
      → text_to_send (obj envelope.payload) ≡ ok text
      → get_default "attachments" (arr nil) (obj envelope.payload) ≡ ok attachments
      → deliver api envelope.connector_id envelope.sender.external_id text attachments w
        ≡ (err e, v)
      → send_to_telegram_user api envelope w ≡ (err (classify e), v)
  unfolding send_to_telegram_user
  send-raises envelope text attachments e w v b t a h = rw b (rw t (rw a (rw h refl)))

-- For a message of a channel that sends over Telegram, with a known bot and a payload whose text
-- and attachments can be read: if the delivery fails and the database answers afterwards, the
-- message ends as the failure says, whichever it is; none leaves it to be delivered again at once.
pub send_to_telegram_user-settles :
    {Q : Type 0} (api : BotApi (World Q)) (pg : Pgmq Q) (queue_name : String) (msg_id n : ℕ)
    (channels : Dict (Channel (World Q))) (payload : Members) (name : Value) (c : Channel (World Q))
    (envelope : Envelope) (text : String) (attachments : Value) (e : Exc) (w v : World Q)
    → get_value "channel" (obj payload) ≡ ok name
    → get_channel (text_of name) channels ≡ ok c
    → c.send_to_user (obj payload) ≡ send_to_telegram_user api envelope
    → api.get_bot_by_connector_id envelope.connector_id ≡ ok tt
    → text_to_send (obj envelope.payload) ≡ ok text
    → get_default "attachments" (arr nil) (obj envelope.payload) ≡ ok attachments
    → deliver api envelope.connector_id envelope.sender.external_id text attachments w ≡ (err e, v)
    → v.faults ≡ []
    → (handle_with_retries pg queue_name
        (from_chatwoot_message channels)
        msg_id
        payload
        n
        w).1.queue
      ≡ settle pg queue_name msg_id (telegram_fate e n) v.queue
send_to_telegram_user-settles api pg queue_name msg_id n channels payload name c envelope text
      attachments e w v is_named is_found is_telegram b t a h quiet =
    let raised =
      ap (λ m. m w) is_telegram ∙ send-raises api envelope text attachments e w v b t a h in
    handle_with_retries-settles pg queue_name msg_id (from_chatwoot_message channels) payload n w
      (err (rate_limited (classify e))) v
      (from_chatwoot-raises channels payload name c is_named is_found (classify e) w v raised) quiet
    ∙ ap (λ f. settle pg queue_name msg_id f v.queue) (contract-classify e n)
