-- ===== src/DeltaChat/Extract.antt =====
-- channels/delta_chat_channel/dc_attachments.py: the files that a message of the core names, and the
-- view type of a file that is sent.
use delta_gateway_chat_woot.Base.{
  ℤ, pos, true, false, parse_int, String, str_eq, lower, trim, starts_with, Bool, List, [], ◌∷◌,
  Option, none, some, or_else, any, if◌then◌else◌,
}
use delta_gateway_chat_woot.Errors.{type_error, value_error, Result, ok, err, ◌>>=ᵣ◌}
use delta_gateway_chat_woot.Values.{
  Value, null, bool, int, str, dict_of, truthy, or_value, get_value, iterate,
}
use delta_gateway_chat_woot.Values.Text.{text_of}
use delta_gateway_chat_woot.Telegram.Extract.{safe_int}
use delta_gateway_chat_woot.DeltaChat.Attachments.{Files, classify_file_type}

-- d.get(k) or d.get(j)
abbrev pub get_either : String → String → Value → Result Value
get_either k j d = get_value k d >>=ᵣ λ a. get_value j d >>=ᵣ λ b. ok (or_value a b)

-- int(v)
unfoldable pub int_of : Value → Result ℤ
int_of (int z) = ok z
int_of (bool true) = ok (pos 1)
int_of (bool false) = ok (pos 0)
int_of (str s) = elim (parse_int s) [ none ↦ err value_error | some z ↦ ok z ]
int_of v = err type_error

unfoldable pub normalize_view_type : Value → String
normalize_view_type null = ""
normalize_view_type v = lower (trim (text_of v))

abbrev one_of : List String → String → Bool
one_of names s = any (str_eq s) names

-- _classify_file_type
unfoldable pub classify_view_type : String → Value → String
classify_view_type mime_type view_type =
    let view = normalize_view_type view_type in
    if one_of ("voice" ∷ []) view
    then "audio"
    else if one_of ("image" ∷ "gif" ∷ []) view
    then "image"
    else if str_eq view "video"
    then "video"
    else if str_eq view "audio"
    then "audio"
    else classify_file_type mime_type

pub record Metadata : Type 0 where
  pub filename : String
  pub mime_type : String
  pub view_type : String
  pub file_type : String

module _ (files : Files) where
  -- Path and mimetypes.guess_type take texts only.
  guessed : Value → Result Value
  guessed (str filename) = ok (str (or_else (files.guess_type filename) "application/octet-stream"))
  guessed v = err type_error

  mime_of : Value → Value → Result Value
  unfolding guessed
  mime_of given filename = if truthy given then ok given else guessed filename

  voice_name : Value → Result Value
  voice_name (str filename) =
      ok (str (if str_eq (files.suffix filename) "" then "voice.ogg" else filename))
  voice_name v = err type_error

  voice_mime : Value → Value
  voice_mime (str m) = str (if str_eq m "application/octet-stream" then "audio/ogg" else m)
  voice_mime v = v

  metadata_of : Value → Value → Value → Metadata
  metadata_of filename mime_type view_type = record {
    filename = text_of filename;
    mime_type = text_of mime_type;
    view_type = text_of (or_value view_type (str ""));
    file_type = classify_view_type (text_of mime_type) view_type;
  }

  unfoldable pub resolve_file_metadata : Value → String → Result Metadata
  unfolding mime_of voice_name voice_mime metadata_of
  resolve_file_metadata attachment file_path =
      get_either "view_type" "viewtype" attachment >>=ᵣ λ view.
      let view_type = or_value view (str "") in
      get_either "filename" "file_name" attachment >>=ᵣ λ name.
      let filename = or_value name (or_value (str (files.name file_path)) (str "attachment")) in
      get_either "mime_type" "mimeType" attachment >>=ᵣ λ mime.
      mime_of mime filename >>=ᵣ λ mime_type.
      if str_eq (normalize_view_type view_type) "voice"
      then (voice_name filename >>=ᵣ λ voice.
          ok (metadata_of voice (voice_mime mime_type) view_type))
      else ok (metadata_of filename mime_type view_type)

  entry_of : Value → String → String → Result Value
  unfolding resolve_file_metadata
  entry_of attachment id_key file_path = resolve_file_metadata attachment file_path >>=ᵣ λ m.
      get_value id_key attachment >>=ᵣ λ file_id.
      get_either "size" "file_size" attachment >>=ᵣ λ size. ok (
        dict_of (
          ("source", str "deltachat")
          ∷ ("file_type", str m.file_type)
          ∷ ("file_id", or_value file_id (str file_path))
          ∷ ("data_url", null)
          ∷ ("path", str file_path)
          ∷ ("file_path", str file_path)
          ∷ ("filename", str m.filename)
          ∷ ("mime_type", str m.mime_type)
          ∷ ("view_type", str m.view_type)
          ∷ ("size", safe_int size)
          ∷ []))

  unfoldable pub extract_each : List Value → Result (List Value)
  unfolding entry_of
  extract_each [] = ok []
  extract_each (attachment ∷ rest) =
      let others = extract_each rest in
      get_either "path" "file_path" attachment >>=ᵣ λ path.
      let file_path = text_of (or_value path (str "")) in
      if str_eq file_path ""
      then others
      else (entry_of attachment "file_id" file_path >>=ᵣ λ e. others >>=ᵣ λ es. ok (e ∷ es))

  unfoldable pub extract_delta_chat_attachments : Value → Result (List Value)
  unfolding entry_of
  extract_delta_chat_attachments raw_data = get_value "attachments" raw_data >>=ᵣ λ given.
      if truthy given
      then (iterate given >>=ᵣ λ each. extract_each each)
      else (get_either "file" "file_path" raw_data >>=ᵣ λ path.
          let file_path = text_of (or_value path (str "")) in
          if str_eq file_path ""
          then ok []
          else (entry_of raw_data "message_id" file_path >>=ᵣ λ e. ok (e ∷ [])))

pub data ViewType : Type 0 where
  image video audio voice gif sticker : ViewType

-- the view types by their names
named_view : String → Option ViewType
named_view view =
    if str_eq view "image"
    then some image
    else if str_eq view "video"
    then some video
    else if str_eq view "audio"
    then some audio
    else if str_eq view "voice"
    then some voice
    else if str_eq view "gif"
    then some gif
    else if str_eq view "sticker"
    then some sticker
    else none

-- Where the view type says nothing, it is not "voice" either.
mime_view : String → Option ViewType
mime_view mime_type =
    if starts_with mime_type "image/"
    then some image
    else if starts_with mime_type "video/"
    then some video
    else if starts_with mime_type "audio/"
    then some audio
    else none

unfoldable pub resolve_delta_chat_viewtype : Value → Result (Option ViewType)
unfolding named_view mime_view
resolve_delta_chat_viewtype attachment = get_either "view_type" "viewtype" attachment >>=ᵣ λ view.
    elim (named_view (normalize_view_type view)) [
      | some v ↦ ok (some v)
      | none ↦ get_either "mime_type" "mimeType" attachment >>=ᵣ λ mime.
          ok (mime_view (text_of (or_value mime (str ""))))
    ]
