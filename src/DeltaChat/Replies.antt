-- ===== src/DeltaChat/Replies.antt =====
-- Replies to Delta Chat users: the way of an address to Chatwoot and back.
use delta_gateway_chat_woot.Base.{
  String, append, true, false, List, [], ◌∷◌, none, ◌≡◌, refl, sym, ap, ◌∙◌,
}
use delta_gateway_chat_woot.Errors.{
  ok, err, value_error, Gives, bind-Gives, bind-Gives-eq, Gives-at,
}
use delta_gateway_chat_woot.Envelope.{add_channel_prefix, build_idempotency_key}
use delta_gateway_chat_woot.Models.{Envelope, text, id_text, optional_text}
use delta_gateway_chat_woot.Values.{
  Value, str, arr, nil, get_value, or_value, index, first, iterate,
}
use delta_gateway_chat_woot.Values.Text.{text_of}
use delta_gateway_chat_woot.World.{World}
use delta_gateway_chat_woot.World.Runs.{moved}
use delta_gateway_chat_woot.Identity.{get_or_create_actor_id, resolve_external_id}
use delta_gateway_chat_woot.Identity.Quiet.{found, resolve_quiet}
use delta_gateway_chat_woot.Identity.RoundTrip.{
  IsUnused, IsConsistent, resolve-get_or_create_actor_id,
}
use delta_gateway_chat_woot.Webhooks.{identifier_of, direct}
use delta_gateway_chat_woot.Webhooks.Routing.{IsOnlyPrefix, IsListed, direct-returns}
use delta_gateway_chat_woot.Telegram.Extract.{extract_chatwoot_attachments}
use delta_gateway_chat_woot.DeltaChat.Routing.{
  Route, get_route_by_connector_id, get_route_by_inbox_id,
}
use delta_gateway_chat_woot.DeltaChat.Attachments.{prepare_delta_chat_to_chatwoot_attachments}
use delta_gateway_chat_woot.DeltaChat.Processor.{
  Processor, required_str, connector_of, channel_envelope, build_channel_message, chatwoot_envelope,
  address_from, external_address,
}

-- The envelope of an incoming message names its sender by the actor id.
abbrev IsFrom : String → String × Envelope → Type 0
IsFrom actor q = q.1.sender.external_id ≡ text actor

-- The envelope of a reply names its receiver by the webhook's identifier alone.
abbrev IsTo : Value → String × Envelope → Type 0
IsTo payload q =
    (i : Value) × (identifier_of payload ≡ ok i)
    × (q.1.sender.external_id ≡ text (text_of i))
    × (q.1.sender.raw_external_id ≡ none)

module _ {Q : Type 0} (p : Processor Q) where
  channel_envelope-IsFrom :
      (raw_data : Value) (route : Route) (address actor : String)
      → Gives (IsFrom actor) (channel_envelope p raw_data route address actor)
  unfolding channel_envelope
  channel_envelope-IsFrom raw_data route address actor =
      bind-Gives (IsFrom actor) (required_str raw_data "message_id") _ (λ message_id.
        bind-Gives (IsFrom actor) (required_str raw_data "chat_id") _ (λ chat_id.
          bind-Gives (IsFrom actor) (get_value "text" raw_data) _ (λ t.
            bind-Gives (IsFrom actor) (get_value "attachments" raw_data) _ (λ given.
              bind-Gives (IsFrom actor) (iterate (or_value given (arr nil))) _ (λ each.
                bind-Gives (IsFrom actor)
                  (prepare_delta_chat_to_chatwoot_attachments p.files p.channel_upload_max_mb each)
                  _
                  (λ attachments.
                    bind-Gives (IsFrom actor) (get_value "account_id" raw_data) _ (λ account_id.
                      bind-Gives (IsFrom actor)
                        (build_idempotency_key p.hash "delta_chat->chatwoot" route.connector_id
                          (text address) message_id
                          (("account_id", text_of (or_value account_id (str "")))
                            ∷ ("chat_id", chat_id)
                            ∷ []))
                        _
                        (λ key.
                          bind-Gives (IsFrom actor) (get_value "sender_name" raw_data) _
                            (λ sender_name.
                              bind-Gives (IsFrom actor) (optional_text sender_name) _ (λ name.
                                bind-Gives (IsFrom actor) (get_value "is_group" raw_data) _ (λ g.
                                  bind-Gives (IsFrom actor) (get_value "view_type" raw_data) _ (λ v.
                                    bind-Gives (IsFrom actor) (get_value "viewtype" raw_data) _
                                      (λ v'. refl)))))))))))))

  chatwoot_envelope-IsTo :
      (payload : Value) (account : String)
      → Gives (IsTo payload) (chatwoot_envelope p payload account)
  unfolding chatwoot_envelope identifier_of
  chatwoot_envelope-IsTo payload account =
      bind-Gives (IsTo payload) (index "inbox" payload) _ (λ inbox.
        bind-Gives (IsTo payload) (index "id" inbox) _ (λ inbox_id.
          bind-Gives (IsTo payload) (get_route_by_inbox_id p.routing (text_of inbox_id)) _ (λ route.
            bind-Gives-eq (IsTo payload) (index "conversation" payload) _ (λ c ec.
              bind-Gives-eq (IsTo payload) (index "meta" c) _ (λ m em.
                bind-Gives-eq (IsTo payload) (index "sender" m) _ (λ s es.
                  bind-Gives-eq (IsTo payload) (index "identifier" s) _ (λ i ei.
                    bind-Gives (IsTo payload) (index "messages" c) _ (λ messages.
                      bind-Gives (IsTo payload) (first messages) _ (λ message.
                        bind-Gives (IsTo payload) (index "id" message) _ (λ message_id.
                          bind-Gives (IsTo payload) (extract_chatwoot_attachments payload) _
                            (λ attachments.
                              bind-Gives (IsTo payload)
                                (build_idempotency_key p.hash "chatwoot->delta_chat"
                                  route.connector_id (text (text_of i)) (text_of message_id) [])
                                _
                                (λ key.
                                  bind-Gives (IsTo payload) (get_value "content" payload) _
                                    (λ content.
                                      (i, rw ec (rw em (rw es ei)), refl, refl))))))))))))))

  -- Where a reply goes, from the webhook's identifier.
  reply-address :
      (payload : Value) (account id key : String) (reply : Envelope) (w : World Q)
      → identifier_of payload ≡ ok (str id)
      → chatwoot_envelope p payload account ≡ ok (key, reply)
      → external_address reply w ≡ resolve_external_id "delta_chat" id w
  unfolding external_address address_from text_of
  reply-address payload account id key reply w h e =
      let (i, ei, named, raw) =
        Gives-at (IsTo payload) (chatwoot_envelope p payload account) (key, reply) e
          (chatwoot_envelope-IsTo payload account) in
      let same : i ≡ str id = cc (h, ei) in
      ap (λ o. address_from o (id_text reply.sender.external_id) w) raw
      ∙ ap (λ x. resolve_external_id "delta_chat" (id_text x) w) named
      ∙ ap (λ v. resolve_external_id "delta_chat" (text_of v) w) same

  -- On a database that answers, with a table in which every actor id of Delta Chat leads to its
  -- address and with an unused next actor id: a reply to the contact of an incoming message that
  -- was built, with the contact's identifier left as the envelope gave it, goes to the address that
  -- the message came from.
  pub build_channel_message-returns :
      (raw_data payload : Value) (connector address key account k : String) (route : Route)
      (e reply : Envelope) (w : World Q)
      → w.faults ≡ []
      → IsConsistent "delta_chat" w.identity_mappings
      → IsUnused "delta_chat"
          (append "delta_chat" (append "_" (p.uuid w.uuids)))
          w.identity_mappings
      → connector_of p.routing raw_data ≡ ok connector
      → get_route_by_connector_id p.routing connector ≡ ok route
      → required_str raw_data "sender_address" ≡ ok address
      → (build_channel_message p raw_data w).0 ≡ ok (key, e)
      → identifier_of payload ≡ ok (str (id_text e.sender.external_id))
      → chatwoot_envelope p payload account ≡ ok (k, reply)
      → (external_address reply (build_channel_message p raw_data w).1).0 ≡ ok address
  unfolding build_channel_message
  build_channel_message-returns raw_data payload connector address key account k route e reply w
        quiet consistent unused is_connector is_route is_address built named replied =
      let (a, returned, resolved, later) =
        resolve-get_or_create_actor_id p.uuid "delta_chat" address w quiet consistent unused in
      let run : build_channel_message p raw_data w ≡ (
        channel_envelope p raw_data route address a,
        (get_or_create_actor_id p.uuid "delta_chat" address w).1,
      ) =
        rw is_connector (rw is_route (rw is_address (rw returned refl))) in
      let sender : e.sender.external_id ≡ text a =
        Gives-at (IsFrom a) (channel_envelope p raw_data route address a) (key, e)
          (sym (ap (λ o. o.0) run) ∙ built) (channel_envelope-IsFrom raw_data route address a) in
      let found =
        reply-address payload account a k reply (build_channel_message p raw_data w).1
          (named ∙ ap (λ x. ok (str (id_text x))) sender) replied in
      ap (λ o. o.0) found
      ∙ ap (λ v. (resolve_external_id "delta_chat" a v).0) (ap (λ o. o.1) run)
      ∙ resolved

  -- Without anonymization and on a database that answers, where no other registered name has a
  -- prefix that the identifier has: a reply to a contact whose identifier is an actor id of Delta
  -- Chat finds no address, unless the rest of the actor id behind the channel's prefix is an actor
  -- id itself.
  pub unanonymized_reply-lost :
      (hex url_channel target account key : String) (names : List String) (payload directed : Value)
      (reply : Envelope) (w : World Q)
      → w.faults ≡ []
      → identifier_of payload ≡ ok (str (add_channel_prefix hex "delta_chat"))
      → IsListed "delta_chat" names
      → IsOnlyPrefix (add_channel_prefix hex "delta_chat") "delta_chat" names
      → IsUnused "delta_chat" hex w.identity_mappings
      → (direct false url_channel names payload w).0 ≡ ok (target, directed)
      → chatwoot_envelope p directed account ≡ ok (key, reply)
      → (external_address reply w).0 ≡ err value_error
  unanonymized_reply-lost hex url_channel target account key names payload directed reply w quiet
        named listed only unused is_directed replied =
      let (stripped, run, without) =
        direct-returns hex "delta_chat" url_channel names payload w named listed only in
      let same : stripped ≡ directed = cc (run, is_directed) in
      ap (λ o. o.0)
        (reply-address directed account hex key reply w (ap identifier_of (sym same) ∙ without)
          replied)
      ∙ ap (λ o. o.0) (resolve_quiet "delta_chat" hex w quiet)
      ∙ ap (λ o. (found o (moved w true [])).0) unused
