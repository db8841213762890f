-- ===== src/Telegram/Prepare.antt =====
-- channels/telegram_channel/tg_attachments.py: downloading an update's attachments for Chatwoot.
pub mod Sizes
use delta_gateway_chat_woot.Base.{
  ℕ, ◌*◌, ℤ, pos, exceeds, String, str_eq, Bool, true, false, List, [], ◌∷◌, Option, none, some,
  map, if◌then◌else◌,
}
use delta_gateway_chat_woot.Errors.{
  Exc, telegram_bad_request, value_error, type_error, Result, ok, err, ◌>>=ᵣ◌,
}
use delta_gateway_chat_woot.Exec.{Exec, ◌>>=◌, ◌>>◌, pure, raise, lift, attempt}
use delta_gateway_chat_woot.Models.{ChatwootAttachment, base64, attachment_value, Envelope, id_text}
use delta_gateway_chat_woot.Values.{
  Value, null, bool, int, str, arr, obj, nil, Members, arr_of, set, truthy, or_value, get_value,
  get_default, iterate,
}

-- The Bot API's calls for files, by connector, and base64.b64encode. `B` stands for bytes.
pub record FileApi (S B : Type 0) : Type 0 where
  pub get_bot_by_connector_id : String → Result (Unit {0})
  pub get_file : String → Value → Exec S (Option String)
  pub download_file : String → String → Exec S B
  pub send_message : String → String → String → Exec S (Unit {0})
  pub size : B → ℕ
  pub b64encode : B → String

pub record Limits : Type 0 where
  pub channel_upload_max_mb : ℕ
  pub chatwoot_upload_max_mb : ℕ
  pub oversize_file_message : String

abbrev pub bytes_of : ℕ → ℕ
bytes_of max_mb = max_mb * 1024 * 1024

-- is_over_size_limit: None is not, and what is no number cannot be compared.
unfoldable pub is_over_size_limit : Value → ℕ → Result Bool
is_over_size_limit null max_mb = ok false
is_over_size_limit (int z) max_mb = ok (exceeds z (bytes_of max_mb))
is_over_size_limit (bool b) max_mb = ok (if b then exceeds (pos 1) (bytes_of max_mb) else false)
is_over_size_limit _ max_mb = err type_error

-- a pydantic field `str`
pub text_field : Value → Result String
text_field (str s) = ok s
text_field _ = err value_error

-- Base64Attachment(...)
unfoldable pub new_attachment : Value → Value → Value → String → Result ChatwootAttachment
new_attachment filename mime_type file_type content = text_field filename >>=ᵣ λ f.
    text_field mime_type >>=ᵣ λ m. text_field file_type >>=ᵣ λ t. ok (base64 f m t content)

module _ {S B : Type 0} (api : FileApi S B) where
  unfoldable pub download_telegram_attachment : String → Value → Exec S B
  download_telegram_attachment connector_id file_id = do
    lift (api.get_bot_by_connector_id connector_id)
    file_path ← api.get_file connector_id file_id
    elim file_path [
      | none ↦ raise value_error
      | some p ↦ if str_eq p "" then raise value_error else api.download_file connector_id p
    ]

  unfoldable pub notify_telegram_user : String → String → String → Exec S (Unit {0})
  notify_telegram_user connector_id chat_id text = do
    lift (api.get_bot_by_connector_id connector_id)
    api.send_message connector_id chat_id text

  -- except TelegramBadRequest: return None
  unavailable : {A : Type 0} → Exc → Exec S (Option A)
  unavailable telegram_bad_request = pure none
  unavailable e = raise e

  module _ (limits : Limits) (connector_id chat_id : String) where
    abbrev pub too_large : Exec S (Option ChatwootAttachment)
    too_large = do notify_telegram_user connector_id chat_id limits.oversize_file_message; pure none

    -- What becomes of a file that was downloaded, or not.
    unfoldable pub encode : Value → Option B → Exec S (Option ChatwootAttachment)
    encode attachment none = pure none
    encode attachment (some file_bytes) = do
      filename ← lift (get_value "filename" attachment)
      mime_type ← lift (get_value "mime_type" attachment)
      over ←
          lift (is_over_size_limit (int (pos (api.size file_bytes))) limits.chatwoot_upload_max_mb)
      if over then too_large else (do
        file_type ← lift (get_default "file_type" (str "file") attachment)
        a ← lift (
            new_attachment (or_value filename (str "unknown"))
              (or_value mime_type (str "application/octet-stream")) file_type
              (api.b64encode file_bytes))
        pure (some a))

    unfoldable pub prepare_single : Value → Exec S (Option ChatwootAttachment)
    unfolding unavailable
    prepare_single attachment = do
      file_id ← lift (get_value "file_id" attachment)
      if truthy file_id
          then (do
            size ← lift (get_value "size" attachment)
            over ← lift (is_over_size_limit size limits.channel_upload_max_mb)
            if over then too_large else (do
              file_bytes ←
                  attempt (do b ← download_telegram_attachment connector_id file_id; pure (some b))
                    unavailable
              encode attachment file_bytes))
          else pure none

    abbrev pub kept : Option ChatwootAttachment → List ChatwootAttachment → List ChatwootAttachment
    kept none rest = rest
    kept (some a) rest = a ∷ rest

    unfoldable pub prepare_each : List Value → Exec S (List ChatwootAttachment)
    prepare_each [] = pure []
    prepare_each (a ∷ rest) = do
      prepared ← prepare_single a
      others ← prepare_each rest
      pure (kept prepared others)

  -- prepare_telegram_to_chatwoot_attachments, on the dump of an envelope, which is validated as an
  -- envelope again afterwards
  unfoldable pub prepare_attachments : Limits → Envelope → Exec S Envelope
  prepare_attachments limits envelope = do
    attachments ← lift (get_default "attachments" (arr nil) (obj envelope.payload))
    if truthy attachments
        then (do
          each ← lift (iterate attachments)
          prepared ←
              prepare_each limits envelope.connector_id (id_text envelope.sender.external_id) each
          pure (record envelope {
            payload =
                set "attachments" (arr (arr_of (map attachment_value prepared))) envelope.payload;
          }))
        else pure envelope
