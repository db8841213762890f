-- ===== src/DeltaChat/Attachments.antt =====
-- channels/delta_chat_channel/dc_attachments.py: the files of an incoming message. pathlib,
-- mimetypes.guess_type and base64.b64encode are a parameter.
use delta_gateway_chat_woot.Base.{
  ℕ, pos, String, str_eq, starts_with, Bool, List, [], ◌∷◌, Option, none, some, or_else,
  if◌then◌else◌,
}
use delta_gateway_chat_woot.Errors.{Result, ok, ◌>>=ᵣ◌}
use delta_gateway_chat_woot.Models.{ChatwootAttachment, base64}
use delta_gateway_chat_woot.Values.{Value, null, int, str, or_value, get_value}
use delta_gateway_chat_woot.Values.Text.{text_of}
use delta_gateway_chat_woot.Telegram.Prepare.{is_over_size_limit}

pub record Files : Type 0 where
  pub exists : String → Bool
  pub size : String → ℕ
  pub name : String → String
  pub suffix : String → String
  pub guess_type : String → Option String
  -- the text of the file's bytes in base64
  pub encoded : String → String

-- _classify_file_type without a view type
unfoldable pub classify_file_type : String → String
classify_file_type mime_type =
    if starts_with mime_type "image/"
    then "image"
    else if starts_with mime_type "video/"
    then "video"
    else if starts_with mime_type "audio/"
    then "audio"
    else "file"

-- str(d.get(k) or d.get(j) or "")
path_of : Value → Result String
path_of attachment = get_value "path" attachment >>=ᵣ λ path.
    get_value "file_path" attachment >>=ᵣ λ file_path.
    ok (text_of (or_value path (or_value file_path (str ""))))

actual_size : Value → ℕ → Value
actual_size null n = int (pos n)
actual_size v n = v

module _ (files : Files) (max_mb : ℕ) where
  encoded_file : Value → String → Result ChatwootAttachment
  encoded_file attachment path = get_value "filename" attachment >>=ᵣ λ given.
      get_value "mime_type" attachment >>=ᵣ λ mime. get_value "file_type" attachment >>=ᵣ λ type.
      let filename =
        text_of (or_value given (or_value (str (files.name path)) (str "attachment"))) in
      let mime_type =
        text_of
          (or_value mime (str (or_else (files.guess_type filename) "application/octet-stream"))) in
      ok (
        base64 filename mime_type (text_of (or_value type (str (classify_file_type mime_type))))
          (files.encoded path))

  prepare_file : Value → String → Result (Option ChatwootAttachment)
  unfolding encoded_file actual_size
  prepare_file attachment path =
      if str_eq path ""
      then ok none
      else if files.exists path
      then (get_value "size" attachment >>=ᵣ λ size.
          is_over_size_limit (actual_size size (files.size path)) max_mb >>=ᵣ λ over.
          if over then ok none else (encoded_file attachment path >>=ᵣ λ a. ok (some a)))
      else ok none

  abbrev kept : Option ChatwootAttachment → List ChatwootAttachment → List ChatwootAttachment
  kept none rest = rest
  kept (some a) rest = a ∷ rest

  unfoldable pub prepare_delta_chat_to_chatwoot_attachments :
      List Value → Result (List ChatwootAttachment)
  unfolding path_of prepare_file
  prepare_delta_chat_to_chatwoot_attachments [] = ok []
  prepare_delta_chat_to_chatwoot_attachments (a ∷ rest) = path_of a >>=ᵣ λ path.
      prepare_file a path >>=ᵣ λ prepared.
      prepare_delta_chat_to_chatwoot_attachments rest >>=ᵣ λ others. ok (kept prepared others)
