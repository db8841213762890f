-- ===== src/Chatwoot/Once.antt =====
-- How many messages a delivery posts.
use delta_gateway_chat_woot.Base.{ℕ, ℤ, int_text, String, List, [], ◌∷◌, Option, none, some}
use delta_gateway_chat_woot.Errors.{ok}
use delta_gateway_chat_woot.Exec.{Exec, lift}
use delta_gateway_chat_woot.Models.{ChatwootAttachment, uploaded, base64}
use delta_gateway_chat_woot.Values.{Value, null, find}
use delta_gateway_chat_woot.Chatwoot.Http.{Request, Reply}
use delta_gateway_chat_woot.Chatwoot.Uploads.{
  kept, signed, upload_bytes, upload_decoded, upload_base64_data, upload_attachment,
  upload_message_attachments,
}
use delta_gateway_chat_woot.Chatwoot.Contacts.{
  ContactSearchResult, search_contact, get_conversation_id, create_conversation, create_contact,
}
use delta_gateway_chat_woot.Chatwoot.Attachments.{normalize_attachments}
use delta_gateway_chat_woot.Chatwoot.Deliver.{
  message_payload, create_message, or_create, conversation_for, ensure_conversation, deliver,
}
use delta_gateway_chat_woot.Chatwoot.Counting.{
  counted, Posts, PostsOne, lift-Posts, bind-Posts, bind-PostsOne, Posts-PostsOne, ask-Posts,
}

module _ {S B : Type 0} (http : Request B → Exec S Reply) where
  module _ (base_url account_id : String) where
    search-Posts : (i : String) → Posts 0 (search_contact (counted http) base_url account_id i)
    unfolding search_contact
    search-Posts i = ask-Posts http _ _

    conversations-Posts :
        (c i : ℤ) → Posts 0 (get_conversation_id (counted http) base_url account_id c i)
    unfolding get_conversation_id
    conversations-Posts c i = ask-Posts http _ _

    create_conversation-Posts :
        (c : ℤ) (source_id : String) (i : ℤ)
        → Posts 0 (create_conversation (counted http) base_url account_id c source_id i)
    unfolding create_conversation find
    create_conversation-Posts c source_id i = ask-Posts http _ _

    create_contact-Posts :
        (i : ℤ) (tid : String) (name : Value) (email phone : Option String)
        → Posts 0 (create_contact (counted http) base_url account_id i tid name email phone)
    unfolding create_contact find
    create_contact-Posts i tid name email phone = ask-Posts http _ _

    module _ (b64decode : String → Option B) (guess_type : String → Option String) where
      decoded-Posts :
          (o : Option B) (filename mime_type : String)
          → Posts 0 (
              upload_decoded
                (counted http)
                base_url
                account_id
                b64decode
                guess_type
                o
                filename
                mime_type)
      unfolding upload_decoded upload_bytes
      decoded-Posts none filename mime_type = lift-Posts (ok null)
      decoded-Posts (some bytes) filename mime_type = ask-Posts http _ _

      upload-Posts :
          (a : ChatwootAttachment)
          → Posts 0 (upload_attachment (counted http) base_url account_id b64decode guess_type a)
      unfolding upload_attachment upload_base64_data
      upload-Posts (uploaded i) = lift-Posts (ok (some i))
      upload-Posts (base64 filename mime_type file_type encoded) =
          bind-Posts 0
            (upload_decoded (counted http) base_url account_id b64decode guess_type
              (b64decode encoded) filename mime_type)
            _ (decoded-Posts (b64decode encoded) filename mime_type) (λ v. lift-Posts (signed v))

      uploads-Posts :
          (bs : List ChatwootAttachment)
          → Posts 0 (
              upload_message_attachments (counted http) base_url account_id b64decode guess_type bs)
      unfolding upload_message_attachments
      uploads-Posts [] = lift-Posts {A = List String} (ok [])
      uploads-Posts (a ∷ bs) =
          bind-Posts 0 (upload_attachment (counted http) base_url account_id b64decode guess_type a)
            _ (upload-Posts a)
            (λ i.
              bind-Posts 0
                (upload_message_attachments (counted http) base_url account_id b64decode guess_type
                  bs)
                _ (uploads-Posts bs) (λ ids. lift-Posts (ok (kept i ids))))

module _ {S B : Type 0} (http : Request B → Exec S Reply) (base_url : String)
    (b64decode : String → Option B) (guess_type : String → Option String) (account_id : ℤ) where
  or_create-Posts :
      (v : Value) (create : Exec (ℕ × S) Value) → Posts 0 create → Posts 0 (or_create v create)
  or_create-Posts null create p = p
  or_create-Posts v create p = lift-Posts (ok v)

  conversation_for-Posts :
      (end_user_id : String) (inbox_id : ℤ) (name : Value) (email phone_number : Option String)
      (found : Option ContactSearchResult)
      → Posts 0 (
          conversation_for
            (counted http)
            base_url
            b64decode
            guess_type
            account_id
            end_user_id
            inbox_id
            name
            email
            phone_number
            found)
  unfolding conversation_for
  conversation_for-Posts end_user_id inbox_id name email phone_number none =
      bind-Posts 0
        (create_contact (counted http) base_url (int_text account_id) inbox_id end_user_id name
          email phone_number)
        _
        (create_contact-Posts http base_url (int_text account_id) inbox_id end_user_id name email
          phone_number)
        (λ c.
          create_conversation-Posts http base_url (int_text account_id) c.contact_id c.source_id
            inbox_id)
  conversation_for-Posts end_user_id inbox_id name email phone_number (some c) =
      bind-Posts 0
        (get_conversation_id (counted http) base_url (int_text account_id) c.contact_id inbox_id) _
        (conversations-Posts http base_url (int_text account_id) c.contact_id inbox_id)
        (λ v. or_create-Posts v _ (
          create_conversation-Posts http base_url (int_text account_id) c.contact_id c.source_id
            inbox_id))

  ensure_conversation-Posts :
      (end_user_id : String) (inbox_id : ℤ) (name : Value) (email phone_number : Option String)
      → Posts 0 (
          ensure_conversation
            (counted http)
            base_url
            b64decode
            guess_type
            account_id
            end_user_id
            inbox_id
            name
            email
            phone_number)
  unfolding ensure_conversation
  ensure_conversation-Posts end_user_id inbox_id name email phone_number =
      bind-Posts 0 (search_contact (counted http) base_url (int_text account_id) end_user_id) _
        (search-Posts http base_url (int_text account_id) end_user_id)
        (λ found. conversation_for-Posts end_user_id inbox_id name email phone_number found)

  create_message-Posts :
      (conversation_id : Value) (message_type : String) (content : Value) (ids : List String)
      → Posts 1 (
          create_message
            (counted http)
            base_url
            b64decode
            guess_type
            account_id
            conversation_id
            message_type
            content
            ids)
  unfolding create_message message_payload find
  create_message-Posts conversation_id message_type content ids = ask-Posts http _ _

  -- A delivery that returns has posted exactly one message, and one that raises at most one,
  -- whatever the server answers.
  pub deliver-PostsOne :
      (end_user_id : String) (inbox_id : ℤ) (content name : Value)
      (email phone_number : Option String) (attachments : Value)
      → PostsOne (
          deliver
            (counted http)
            base_url
            b64decode
            guess_type
            account_id
            end_user_id
            inbox_id
            content
            name
            email
            phone_number
            attachments)
  unfolding deliver
  deliver-PostsOne end_user_id inbox_id content name email phone_number attachments =
      bind-PostsOne
        (ensure_conversation (counted http) base_url b64decode guess_type account_id end_user_id
          inbox_id name email phone_number)
        _ (ensure_conversation-Posts end_user_id inbox_id name email phone_number)
        (λ conversation_id.
          bind-PostsOne (lift (normalize_attachments attachments)) _
            (lift-Posts (normalize_attachments attachments))
            (λ normalized.
              bind-PostsOne
                (upload_message_attachments (counted http) base_url (int_text account_id) b64decode
                  guess_type normalized)
                _
                (uploads-Posts http base_url (int_text account_id) b64decode guess_type normalized)
                (λ ids.
                  Posts-PostsOne
                    (create_message (counted http) base_url b64decode guess_type account_id
                      conversation_id "incoming" content ids)
                    (create_message-Posts conversation_id "incoming" content ids))))
