-- ===== src/Simplex/Messages.antt =====
-- channels/simplex_channel/sx_bot_manager.py: what the CLI's answers and events say.
pub mod Forwarded
use delta_gateway_chat_woot.Base.{
  String, starts_with, trim, str_eq, Bool, true, false, not, ◌||◌, List, [], ◌∷◌, Option, none,
  some, any, if◌then◌else◌,
}
use delta_gateway_chat_woot.Errors.{
  Exc, attribute_error, type_error, simplex_error, Result, ok, err, ◌>>=ᵣ◌,
}
use delta_gateway_chat_woot.Values.{
  Value, null, bool, int, str, arr, obj, end, Members, items, dict_of, is_obj, or_value, find,
  get_value, get_default, equals,
}
use delta_gateway_chat_woot.Values.Text.{text_of}

-- sub in text
contains : String → String → Bool
contains sub String.[] = str_eq sub ""
contains sub (String.◌∷◌ c s) = starts_with (String.◌∷◌ c s) sub || contains sub s

-- k in v
unfoldable pub has_item : String → Value → Result Bool
unfolding contains
has_item k (obj m) = ok (elim (find k m) [ none ↦ false | some v ↦ true ])
has_item k (arr vs) = ok (any (λ v. equals v k) (items vs))
has_item k (str s) = ok (contains k s)
has_item k _ = err type_error

-- v in {...}: a list or a dictionary has no hash
unfoldable pub in_set : List String → Value → Result Bool
in_set names (arr vs) = err type_error
in_set names (obj m) = err type_error
in_set names v = ok (any (equals v) names)

-- resp['Left'] in the message of the error
left_of : Value → Exc
left_of (obj m) = simplex_error false
left_of v = type_error

is_error : Value → Result Bool
is_error (obj m) = get_value "type" (obj m) >>=ᵣ λ t. in_set ("chatCmdError" ∷ "chatError" ∷ []) t
is_error v = ok false

unfoldable pub unwrap : Value → Result Value
unfolding left_of is_error
unwrap resp = has_item "Left" resp >>=ᵣ λ left.
    if left
    then err (left_of resp)
    else (get_default "Right" resp resp >>=ᵣ λ payload.
        is_error payload >>=ᵣ λ bad. if bad then err (simplex_error false) else ok payload)

unfoldable pub unwrap_event : Value → Result Value
unwrap_event (obj m) = get_default "Right" (obj m) (obj m)
unwrap_event v = ok (obj end)

-- v.strip()
strip : Value → Result String
strip (str s) = ok (trim s)
strip v = err attribute_error

-- (v or {}).get(k)
unfoldable pub get_in : String → Value → Result Value
get_in k v = get_value k (or_value v (obj end))

-- the message for the receiver
unfoldable pub message_of : Value → Value → Value → String → Value
message_of contact_id name item_id text = dict_of (
    ("type", str "message")
    ∷ ("source_id", contact_id)
    ∷ ("source_name", or_value name (str (text_of contact_id)))
    ∷ ("item_id", item_id)
    ∷ ("text", str text)
    ∷ [])

-- The message, unless it has no contact.
with_contact : Value → Value → Value → String → Result (Option Value)
with_contact null contact chat_item text = ok none
with_contact contact_id contact chat_item text = get_value "localDisplayName" contact >>=ᵣ λ name.
    get_value "meta" chat_item >>=ᵣ λ meta.
    get_in "itemId" meta >>=ᵣ λ item_id. ok (some (message_of contact_id name item_id text))

-- The text of a chat item's content, or none where it has no text to forward.
content_text : Value → Result (Option String)
unfolding strip
content_text chat_item = get_value "content" chat_item >>=ᵣ λ content.
    get_in "msgContent" content >>=ᵣ λ msg. get_in "type" msg >>=ᵣ λ type.
    if equals type "text"
    then (get_in "text" msg >>=ᵣ λ text. strip (or_value text (str "")) >>=ᵣ λ stripped.
        ok (if str_eq stripped "" then none else some stripped))
    else ok none

received_text : Value → Result (Option String)
unfolding content_text
received_text chat_item = get_value "chatDir" chat_item >>=ᵣ λ dir. get_in "type" dir >>=ᵣ λ type.
    if equals type "directRcv" then content_text chat_item else ok none

-- What `_emit_message` puts into the queue, if it puts anything.
unfoldable pub normalize : Value → Result (Option Value)
unfolding received_text with_contact
normalize entry = get_default "chatInfo" (obj end) entry >>=ᵣ λ chat_info.
    get_value "type" chat_info >>=ᵣ λ type.
    if equals type "direct"
    then (get_default "contact" (obj end) chat_info >>=ᵣ λ contact.
        get_default "chatItem" (obj end) entry >>=ᵣ λ chat_item.
        received_text chat_item >>=ᵣ λ text. elim text [
          | none ↦ ok none
          | some t ↦ get_value "contactId" contact >>=ᵣ λ contact_id.
              with_contact contact_id contact chat_item t
        ])
    else ok none
