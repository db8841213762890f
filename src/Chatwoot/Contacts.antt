-- ===== src/Chatwoot/Contacts.antt =====
-- infrastructure/chatwoot_client/cw_client.py and infrastructure/provider_models.py: contacts and
-- conversations. Pydantic's lax conversion to `int` takes a text of an integer; of its texts with a
-- fraction none is taken here.
use delta_gateway_chat_woot.Base.{
  ℤ, pos, String, append, Bool, true, false, List, [], ◌∷◌, Option, none, some, int_eq, int_text,
  parse_int, if◌then◌else◌, not,
}
use delta_gateway_chat_woot.Errors.{value_error, Result, ok, err, ◌>>=ᵣ◌}
use delta_gateway_chat_woot.Exec.{Exec}
use delta_gateway_chat_woot.Models.{optional_text}
use delta_gateway_chat_woot.Values.{
  Value, null, bool, int, str, arr, obj, nil, end, dict_of, or_value, truthy, get_value,
  get_default, index, first, iterate,
}
use delta_gateway_chat_woot.Chatwoot.Http.{Request, Reply, no_body, json, ask}

pub record ContactInfo : Type 0 where
  pub contact_id : ℤ
  pub email : Option String
  pub name : String
  pub phone_number : Option String
  pub identifier : Option String
  pub source_id : String
  pub inbox_id : ℤ

pub record ContactSearchResult : Type 0 where
  pub contact_id : ℤ
  pub name : String
  pub email : Option String
  pub phone_number : Option String
  pub source_id : String
  pub inbox_id : ℤ

-- the pydantic fields `int` and `str`
int_field : Value → Result ℤ
int_field (int z) = ok z
int_field (bool true) = ok (pos 1)
int_field (bool false) = ok (pos 0)
int_field (str s) = elim (parse_int s) [ none ↦ err value_error | some z ↦ ok z ]
int_field _ = err value_error

text_field : Value → Result String
text_field (str s) = ok s
text_field _ = err value_error

-- contact["contact_inboxes"][0], if there is any
first_inbox : Value → Result (Option Value)
first_inbox contact = get_value "contact_inboxes" contact >>=ᵣ λ inboxes.
    if truthy inboxes then (first inboxes >>=ᵣ λ inbox. ok (some inbox)) else ok none

inbox_info : Option Value → Result Value
inbox_info none = ok (obj end)
inbox_info (some inbox) = index "inbox" inbox

inbox_source : Option Value → Result Value
inbox_source none = ok (str "")
inbox_source (some inbox) = index "source_id" inbox

found_contact : Value → Result ContactSearchResult
unfolding int_field text_field first_inbox inbox_info inbox_source
found_contact contact = first_inbox contact >>=ᵣ λ inbox. inbox_info inbox >>=ᵣ λ info.
    inbox_source inbox >>=ᵣ λ source. index "id" contact >>=ᵣ λ id.
    index "name" contact >>=ᵣ λ name. index "email" contact >>=ᵣ λ email.
    index "phone_number" contact >>=ᵣ λ phone. get_default "id" (int (pos 0)) info >>=ᵣ λ inbox_id.
    int_field id >>=ᵣ λ id'. text_field name >>=ᵣ λ name'. optional_text email >>=ᵣ λ email'.
    optional_text phone >>=ᵣ λ phone'. text_field source >>=ᵣ λ source'.
    int_field inbox_id >>=ᵣ λ inbox_id'. ok (record {
      contact_id = id';
      name = name';
      email = email';
      phone_number = phone';
      source_id = source';
      inbox_id = inbox_id';
    })

-- _search_contact's answer for the response's data
unfoldable pub search_result : Value → Result (Option ContactSearchResult)
unfolding found_contact
search_result content = get_default "payload" (arr nil) content >>=ᵣ λ payload.
    if not (truthy payload)
    then ok none
    else (first payload >>=ᵣ λ contact. found_contact contact >>=ᵣ λ c. ok (some c))

-- v == z in Python, where True is 1
abbrev pub equals_int : Value → ℤ → Bool
equals_int (int w) z = int_eq w z
equals_int (bool true) z = int_eq (pos 1) z
equals_int (bool false) z = int_eq (pos 0) z
equals_int _ z = false

-- the loop of _get_conversation_id; `null` is None, also where a conversation's id is null
unfoldable pub find_conversation : ℤ → List Value → Result Value
find_conversation inbox_id [] = ok null
find_conversation inbox_id (p ∷ ps) = index "inbox_id" p >>=ᵣ λ i.
    if equals_int i inbox_id then index "id" p else find_conversation inbox_id ps

-- _get_conversation_id's answer
unfoldable pub conversation_id_of : ℤ → Value → Result Value
conversation_id_of inbox_id content = get_default "payload" (arr nil) content >>=ᵣ λ payload.
    iterate payload >>=ᵣ λ conversations. find_conversation inbox_id conversations

-- _create_contact's answer
unfoldable pub created_contact : Value → Result ContactInfo
unfolding int_field text_field
created_contact content = index "payload" content >>=ᵣ λ p. index "contact" p >>=ᵣ λ contact.
    index "contact_inbox" p >>=ᵣ λ inbox. index "id" contact >>=ᵣ λ id.
    index "email" contact >>=ᵣ λ email. index "name" contact >>=ᵣ λ name.
    index "phone_number" contact >>=ᵣ λ phone. index "identifier" contact >>=ᵣ λ identifier.
    index "source_id" inbox >>=ᵣ λ source. index "inbox" inbox >>=ᵣ λ i.
    index "channel_id" i >>=ᵣ λ channel_id. int_field id >>=ᵣ λ id'.
    optional_text email >>=ᵣ λ email'. text_field name >>=ᵣ λ name'.
    optional_text phone >>=ᵣ λ phone'. optional_text identifier >>=ᵣ λ identifier'.
    text_field source >>=ᵣ λ source'. int_field channel_id >>=ᵣ λ inbox_id'. ok (record {
      contact_id = id';
      email = email';
      name = name';
      phone_number = phone';
      identifier = identifier';
      source_id = source';
      inbox_id = inbox_id';
    })

-- None and texts as JSON
abbrev pub optional_value : Option String → Value
optional_value none = null
optional_value (some s) = str s

module _ {S B : Type 0} (http : Request B → Exec S Reply) (base_url account_id : String) where
  abbrev pub url_of : String → String
  url_of path = append base_url (append "/api/v1/accounts/" (append account_id path))

  abbrev pub get_json :
      {A : Type 0} → String → List (String × String) → (Value → Result A) → Exec S A
  get_json path params answer =
      ask http (record { method = "GET"; url = url_of path; params = params; body = no_body })
        answer

  abbrev pub post_json : {A : Type 0} → String → Value → (Value → Result A) → Exec S A
  post_json path content answer =
      ask http (record { method = "POST"; url = url_of path; params = []; body = json content })
        answer

  unfoldable pub search_contact : String → Exec S (Option ContactSearchResult)
  search_contact identifier = get_json "/contacts/search" (("q", identifier) ∷ []) search_result

  unfoldable pub get_conversation_id : ℤ → ℤ → Exec S Value
  get_conversation_id contact_id inbox_id =
      get_json (append "/contacts/" (append (int_text contact_id) "/conversations")) []
        (conversation_id_of inbox_id)

  unfoldable pub create_conversation : ℤ → String → ℤ → Exec S Value
  create_conversation contact_id source_id inbox_id =
      post_json "/conversations"
        (dict_of (
          ("contact_id", int contact_id)
          ∷ ("source_id", str source_id)
          ∷ ("inbox_id", int inbox_id)
          ∷ []))
        (index "id")

  unfoldable pub create_contact :
      ℤ → String → Value → Option String → Option String → Exec S ContactInfo
  create_contact inbox_id tid name email phone =
      post_json "/contacts"
        (dict_of (
          ("inbox_id", int inbox_id)
          ∷ ("identifier", str tid)
          ∷ ("name", or_value name (str ""))
          ∷ ("email", optional_value email)
          ∷ ("phone_number", optional_value phone)
          ∷ []))
        created_contact
