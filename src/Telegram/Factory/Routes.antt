-- ===== src/Telegram/Factory/Routes.antt =====
-- The connector, account and inbox of the envelopes for configured bots.
use delta_gateway_chat_woot.Base.{ℕ, String, append, List, ◌∷◌, ◌++◌, ◌≡◌, refl}
use delta_gateway_chat_woot.Errors.{ok, Gives, bind-Gives}
use delta_gateway_chat_woot.Envelope.{build_idempotency_key}
use delta_gateway_chat_woot.Models.{Envelope, external_id_of}
use delta_gateway_chat_woot.Values.{Value, str, index, first, get_default}
use delta_gateway_chat_woot.Values.Text.{text_of}
use delta_gateway_chat_woot.Telegram.Routing.{BotConfig, new_routing}
use delta_gateway_chat_woot.Telegram.Routing.Laws.{IsUnrepeated, new_routing-returns}
use delta_gateway_chat_woot.Telegram.Extract.{
  extract_telegram_attachments, extract_chatwoot_attachments,
}
use delta_gateway_chat_woot.Telegram.Factory.{
  parse_sender_info, get_message_text, suffix_entry, parse_channel_request, parse_chatwoot_request,
}

-- The envelope is sent over the configuration's connector and carries its own key.
abbrev pub IsRoutedBy : BotConfig → String × Envelope → Type 0
IsRoutedBy cfg (key, e) =
    (e.idem_key ≡ key) × (e.connector_id ≡ cfg.connector_id) × (e.cw_inbox_id ≡ cfg.cw_inbox_id)

module _ (hash : String → String) (now : ℕ) (cfg : BotConfig) (before after : List BotConfig)
    (unrepeated : IsUnrepeated cfg after) (channel : String) where
  -- For a connector that no later configuration repeats: an update of it is refused, or becomes an
  -- envelope for the inbox and the account of the connector's configuration, under its own key.
  pub parse_channel_request-IsRoutedBy :
      (raw_data : Value)
      → Gives
          (λ p. IsRoutedBy cfg p × (p.1.cw_account_id ≡ cfg.cw_account_id))
          (parse_channel_request hash now
            (new_routing (before ++ cfg ∷ after))
            raw_data
            cfg.connector_id
            channel)
  unfolding parse_channel_request
  parse_channel_request-IsRoutedBy raw_data =
      let P : String × Envelope → Type 0 =
        λ p. IsRoutedBy cfg p × (p.1.cw_account_id ≡ cfg.cw_account_id) in
      rw (new_routing-returns cfg before after unrepeated).0 (
        bind-Gives P (parse_sender_info raw_data) _ (λ sender_info.
          bind-Gives P (get_message_text raw_data) _ (λ text.
            bind-Gives P (extract_telegram_attachments raw_data) _ (λ attachments.
              bind-Gives P (index "message" raw_data) _ (λ message.
                bind-Gives P (index "message_id" message) _ (λ message_id.
                  bind-Gives P
                    (build_idempotency_key hash (append channel "->chatwoot") cfg.connector_id
                      sender_info.external_id (text_of message_id) (suffix_entry cfg.bot_token))
                    _ (λ key. ((refl, refl, refl), refl))))))))

  -- For an inbox that no later configuration repeats: a webhook of it is refused, or becomes an
  -- envelope for the connector that the inbox is configured for, under its own key, whatever
  -- account its URL names.
  pub parse_chatwoot_request-IsRoutedBy :
      (raw_data inbox inbox_id : Value) (cw_account_id : String)
      → index "inbox" raw_data ≡ ok inbox
      → index "id" inbox ≡ ok inbox_id
      → text_of inbox_id ≡ cfg.cw_inbox_id
      → Gives (IsRoutedBy cfg) (
          parse_chatwoot_request hash now
            (new_routing (before ++ cfg ∷ after))
            raw_data
            cw_account_id
            channel)
  unfolding parse_chatwoot_request
  parse_chatwoot_request-IsRoutedBy raw_data inbox inbox_id cw_account_id h i t = rw h (
      rw i (
        rw (t, (new_routing-returns cfg before after unrepeated).1)
          (bind-Gives (IsRoutedBy cfg) (extract_chatwoot_attachments raw_data) _ (λ attachments.
            bind-Gives (IsRoutedBy cfg) (index "conversation" raw_data) _ (λ conversation.
              bind-Gives (IsRoutedBy cfg) (index "meta" conversation) _ (λ meta.
                bind-Gives (IsRoutedBy cfg) (index "sender" meta) _ (λ sender.
                  bind-Gives (IsRoutedBy cfg) (index "identifier" sender) _ (λ identifier.
                    bind-Gives (IsRoutedBy cfg) (external_id_of identifier) _ (λ external_id.
                      bind-Gives (IsRoutedBy cfg) (index "messages" conversation) _ (λ messages.
                        bind-Gives (IsRoutedBy cfg) (first messages) _ (λ message.
                          bind-Gives (IsRoutedBy cfg) (index "id" message) _ (λ message_id.
                            bind-Gives (IsRoutedBy cfg)
                              (build_idempotency_key hash (append "chatwoot->" channel)
                                cfg.connector_id external_id (text_of message_id)
                                (suffix_entry cfg.bot_token))
                              _
                              (λ key.
                                bind-Gives (IsRoutedBy cfg)
                                  (get_default "content" (str "") raw_data) _
                                  (λ text. (refl, refl, refl)))))))))))))))
