-- ===== src/DeltaChat/Transport/Send.antt =====
-- dc_transport.py: sending a message, over the native client or the bridge. Reading the text of an
-- error response is taken to succeed.
use delta_gateway_chat_woot.Base.{
  ℕ, leb, String, append, str_eq, true, List, [], ◌∷◌, Option, none, some, if◌then◌else◌,
}
use delta_gateway_chat_woot.Errors.{
  Exc, fatal_error, value_error, transient_default, is_network_error, Result, ok, ◌>>=ᵣ◌,
}
use delta_gateway_chat_woot.Exec.{Exec, ◌>>=◌, ◌>>◌, pure, raise, lift, attempt}
use delta_gateway_chat_woot.Models.{Envelope, ChannelDeliveryResult, id_text}
use delta_gateway_chat_woot.Values.{
  Value, str, arr, arr_of, obj, nil, dict_of, or_value, get_value, iterate,
}
use delta_gateway_chat_woot.Values.Text.{text_of}
use delta_gateway_chat_woot.World.{World}
use delta_gateway_chat_woot.DeltaChat.Routing.{Routing, Route, get_route_by_connector_id}
use delta_gateway_chat_woot.DeltaChat.Processor.{external_address}
use delta_gateway_chat_woot.DeltaChat.Transport.{
  Sending, Urls, Outside, Settings, Prepared, outside, download_each, finally, unlink_all,
}

module _ {Q : Type 0} (urls : Urls) (out : Outside (World Q)) (settings : Settings) where
  -- The text goes with the first file.
  send_files : ℕ → Option String → List Prepared → Exec (Sending Q) (Unit {0})
  send_files chat text [] = pure tt
  send_files chat text (p ∷ ps) = do
    outside urls out settings (out.send_file chat text p.temp_path p.filename p.viewtype)
    send_files chat none ps

  send_parts : ℕ → String → List Prepared → Exec (Sending Q) (Unit {0})
  send_parts chat text [] =
      if str_eq text "" then pure tt else outside urls out settings (out.send_text chat text)
  send_parts chat text (p ∷ ps) =
      send_files chat (if str_eq text "" then none else some text) (p ∷ ps)

  contact_or_new : ℕ → String → Option String → Option ℕ → Exec (Sending Q) ℕ
  contact_or_new account address name none =
      outside urls out settings (out.create_contact account address name)
  contact_or_new account address name (some contact) = pure contact

  chat_or_new : ℕ → ℕ → Option ℕ → Exec (Sending Q) ℕ
  chat_or_new account contact none = outside urls out settings (out.create_chat account contact)
  chat_or_new account contact (some chat) = pure chat

  unfoldable pub deliver :
      ℕ → String → Option String → String → List Prepared → Exec (Sending Q) (Unit {0})
  unfolding send_parts send_files contact_or_new chat_or_new
  deliver account address name text files = do
    known ← outside urls out settings (out.get_contact_by_addr account address)
    contact ← contact_or_new account address name known
    open_chat ← outside urls out settings (out.get_chat_by_contact account contact)
    chat ← chat_or_new account contact open_chat
    send_parts chat text files

  delivered : String → ChannelDeliveryResult
  delivered address = record { delivered = true; external_id = some address }

  -- the body of the `try` of the native client
  unfoldable pub send_native :
      Route → Envelope → String → String → Exec (Sending Q) ChannelDeliveryResult
  unfolding delivered
  send_native route envelope address text = do
    account ← outside urls out settings (out.get_account route.connector_id)
    given ← lift (get_value "attachments" (obj envelope.payload))
    attachments ← lift (iterate (or_value given (arr nil)))
    files ← download_each urls out settings attachments
    finally urls out settings (deliver account address envelope.sender.name text files)
        (unlink_all urls out settings files)
    pure (delivered address)

  -- The except clauses, in their order.
  unfoldable pub classify : Exc → Exc
  classify fatal_error = fatal_error
  classify value_error = fatal_error
  classify e = transient_default

  -- What a status of the bridge stands for.
  bridge_status : ℕ → String → Exec (Sending Q) ChannelDeliveryResult
  bridge_status status address =
      if leb 500 status
      then raise transient_default
      else if leb 400 status
      then raise fatal_error
      else pure (delivered address)

  -- except (aiohttp.ClientError, TimeoutError)
  bridge_error : Exc → Exec (Sending Q) ChannelDeliveryResult
  bridge_error e = if is_network_error e then raise transient_default else raise e

  unfoldable pub send_via_bridge :
      String
      → String
      → String
      → String
      → String
      → String
      → Value
      → Exec (Sending Q) ChannelDeliveryResult
  unfolding bridge_status bridge_error delivered
  send_via_bridge bridge_url actor_id address conversation_id message_id text attachments =
      attempt
        (do
          status ← outside urls out settings (
              out.post (append bridge_url "/send") (
                dict_of (
                  ("actor_id", str actor_id)
                  ∷ ("external_id", str address)
                  ∷ ("conversation_id", str conversation_id)
                  ∷ ("message_id", str message_id)
                  ∷ ("text", str text)
                  ∷ ("attachments", attachments)
                  ∷ [])))
          bridge_status status address)
        bridge_error

  -- str(envelope.payload.get(k) or "")
  payload_text : Envelope → String → Result String
  payload_text envelope k =
      get_value k (obj envelope.payload) >>=ᵣ λ v. ok (text_of (or_value v (str "")))

  -- send_to_delta_chat_user, after the message was validated as an envelope
  unfoldable pub send_to_delta_chat_user :
      Routing → Envelope → Exec (Sending Q) ChannelDeliveryResult
  unfolding payload_text
  send_to_delta_chat_user routing envelope = do
    route ← lift (get_route_by_connector_id routing envelope.connector_id)
    address ← outside urls out settings (external_address envelope)
    text ← lift (payload_text envelope "text")
    given ← lift (get_value "attachments" (obj envelope.payload))
    attachments ← lift (iterate (or_value given (arr nil)))
    let bridge_url = urls.strip_slashes route.bridge_url
    if settings.enable_native_deltachat_channel
        then attempt (send_native route envelope address text) (λ e. raise (classify e))
        else if str_eq bridge_url ""
        then raise fatal_error
        else (do
          conversation_id ← lift (payload_text envelope "conversation_id")
          send_via_bridge bridge_url (id_text envelope.sender.external_id) address conversation_id
              envelope.message_id text (arr (arr_of attachments)))
