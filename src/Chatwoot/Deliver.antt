-- ===== src/Chatwoot/Deliver.antt =====
-- infrastructure/chatwoot_client/cw_client.py: the message, and the whole delivery.
use delta_gateway_chat_woot.Base.{
  ℤ, int_text, String, append, List, [], ◌∷◌, ◌++◌, Option, none, some, map, take,
}
use delta_gateway_chat_woot.Base.Dict.{Dict}
use delta_gateway_chat_woot.Errors.{ok}
use delta_gateway_chat_woot.Exec.{Exec, ◌>>=◌, pure, lift}
use delta_gateway_chat_woot.Values.{Value, null, str, arr, arr_of, dict_of}
use delta_gateway_chat_woot.Values.Text.{text_of}
use delta_gateway_chat_woot.Chatwoot.Http.{Request, Reply}
use delta_gateway_chat_woot.Chatwoot.Attachments.{normalize_attachments}
use delta_gateway_chat_woot.Chatwoot.Uploads.{upload_message_attachments}
use delta_gateway_chat_woot.Chatwoot.Contacts.{
  ContactSearchResult, post_json, search_contact, get_conversation_id, create_conversation,
  create_contact,
}

-- payload["attachments"] = attachments[:15], if there are any
attachments_entry : List String → Dict Value
attachments_entry [] = []
attachments_entry (s ∷ ss) = ("attachments", arr (arr_of (map str (take 15 (s ∷ ss))))) ∷ []

unfoldable pub message_payload : String → Value → List String → Value
unfolding attachments_entry
message_payload message_type content attachments = dict_of (
    (("message_type", str message_type) ∷ ("content", content) ∷ [])
    ++ attachments_entry attachments)

-- conversation_id, or a new conversation's where it is None
abbrev pub or_create : {S : Type 0} → Value → Exec S Value → Exec S Value
or_create null create = create
or_create v create = pure v

module _ {S B : Type 0} (http : Request B → Exec S Reply) (base_url : String)
    (b64decode : String → Option B) (guess_type : String → Option String) where
  unfoldable pub create_message : ℤ → Value → String → Value → List String → Exec S (Unit {0})
  create_message account_id conversation_id message_type content attachments =
      post_json http base_url (int_text account_id)
        (append "/conversations/" (append (text_of conversation_id) "/messages"))
        (message_payload message_type content attachments) (λ answer. ok tt)

  -- The conversation for the contact that the search found, or for a new one. The name, e-mail
  -- address and phone number serve to create a contact.
  unfoldable pub conversation_for :
      ℤ
      → String
      → ℤ
      → Value
      → Option String
      → Option String
      → Option ContactSearchResult
      → Exec S Value
  conversation_for account_id end_user_id inbox_id name email phone_number none = do
    contact ←
        create_contact http base_url (int_text account_id) inbox_id end_user_id name email
          phone_number
    create_conversation http base_url (int_text account_id) contact.contact_id contact.source_id
        inbox_id
  conversation_for account_id end_user_id inbox_id name email phone_number (some contact) = do
    conversation_id ←
        get_conversation_id http base_url (int_text account_id) contact.contact_id inbox_id
    or_create conversation_id (
        create_conversation http base_url (int_text account_id) contact.contact_id contact.source_id
          inbox_id)

  unfoldable pub ensure_conversation :
      ℤ → String → ℤ → Value → Option String → Option String → Exec S Value
  ensure_conversation account_id end_user_id inbox_id name email phone_number = do
    found ← search_contact http base_url (int_text account_id) end_user_id
    conversation_for account_id end_user_id inbox_id name email phone_number found

  -- deliver_channel_to_chatwoot_message
  unfoldable pub deliver :
      ℤ → String → ℤ → Value → Value → Option String → Option String → Value → Exec S (Unit {0})
  deliver account_id end_user_id inbox_id content name email phone_number attachments = do
    conversation_id ← ensure_conversation account_id end_user_id inbox_id name email phone_number
    normalized ← lift (normalize_attachments attachments)
    ids ←
        upload_message_attachments http base_url (int_text account_id) b64decode guess_type
          normalized
    create_message account_id conversation_id "incoming" content ids
