-- ===== src/Models.antt =====
-- core/core_models.py and core/attachment_models.py. A value that does not have the declared type
-- is pydantic's ValidationError, a ValueError.
use delta_gateway_chat_woot.Base.{
  ℕ, ℤ, pos, String, Bool, true, false, [], ◌∷◌, Option, none, some, int_text, is_zero, not, str_eq,
}
use delta_gateway_chat_woot.Errors.{Result, ok, err, value_error}
use delta_gateway_chat_woot.Values.{Value, null, bool, int, str, obj, Members, obj_of, dict_of}

-- `str | int`
pub data ExternalId : Type 0 where
  text : String → ExternalId
  number : ℤ → ExternalId

-- str(external_id)
abbrev pub id_text : ExternalId → String
id_text (text s) = s
id_text (number z) = int_text z

-- bool(external_id)
abbrev pub id_truthy : ExternalId → Bool
id_truthy (text s) = not (str_eq s "")
id_truthy (number z) = not (is_zero z)

unfoldable pub external_id_of : Value → Result ExternalId
external_id_of (str s) = ok (text s)
external_id_of (int z) = ok (number z)
external_id_of (bool true) = ok (number (pos 1))
external_id_of (bool false) = ok (number (pos 0))
external_id_of _ = err value_error

-- `str | None`
unfoldable pub optional_text : Value → Result (Option String)
optional_text null = ok none
optional_text (str s) = ok (some s)
optional_text _ = err value_error

pub record SenderInfo : Type 0 where
  pub external_id : ExternalId
  pub raw_external_id : Option ExternalId
  pub name : Option String
  pub nickname : Option String

pub record Envelope : Type 0 where
  pub idem_key : String
  pub channel : String
  pub from : String
  pub to : String
  pub connector_id : String
  pub cw_inbox_id : String
  pub message_id : String
  pub cw_account_id : String
  pub sender : SenderInfo
  pub payload : Members
  pub ts : ℕ

pub record ChannelDeliveryResult : Type 0 where
  pub delivered : Bool
  pub external_id : Option String

-- `UploadedAttachment | Base64Attachment`; the two literal fields `kind` are the constructors.
pub data ChatwootAttachment : Type 0 where
  uploaded : (signed_id : String) → ChatwootAttachment
  base64 : (filename mime_type file_type content : String) → ChatwootAttachment

abbrev pub id_value : ExternalId → Value
id_value (text s) = str s
id_value (number z) = int z

abbrev pub optional : Option String → Value
optional none = null
optional (some s) = str s

optional_id : Option ExternalId → Value
optional_id none = null
optional_id (some i) = id_value i

-- attachment.model_dump(mode="json")
unfoldable pub attachment_value : ChatwootAttachment → Value
attachment_value (uploaded s) = dict_of (("kind", str "uploaded") ∷ ("signed_id", str s) ∷ [])
attachment_value (base64 f m t d) = dict_of (
    ("kind", str "base64")
    ∷ ("filename", str f)
    ∷ ("mime_type", str m)
    ∷ ("file_type", str t)
    ∷ ("data", str d)
    ∷ ("data_encoding", str "base64")
    ∷ [])

-- sender.model_dump(mode="json")
unfoldable pub sender_value : SenderInfo → Value
unfolding optional_id
sender_value s = dict_of (
    ("external_id", id_value s.external_id)
    ∷ ("raw_external_id", optional_id s.raw_external_id)
    ∷ ("name", optional s.name)
    ∷ ("nickname", optional s.nickname)
    ∷ [])

unfoldable pub envelope_members : Envelope → Members
unfolding sender_value
envelope_members e = obj_of (
    ("idem_key", str e.idem_key)
    ∷ ("channel", str e.channel)
    ∷ ("from_", str e.from)
    ∷ ("to", str e.to)
    ∷ ("connector_id", str e.connector_id)
    ∷ ("cw_inbox_id", str e.cw_inbox_id)
    ∷ ("message_id", str e.message_id)
    ∷ ("cw_account_id", str e.cw_account_id)
    ∷ ("sender", sender_value e.sender)
    ∷ ("payload", obj e.payload)
    ∷ ("ts", int (pos e.ts))
    ∷ [])

-- envelope.model_dump(mode="json")
abbrev pub model_dump : Envelope → Value
model_dump e = obj (envelope_members e)
