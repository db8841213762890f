-- ===== src/Telegram/Extract.antt =====
-- channels/telegram_channel/tg_attachments.py: the attachments that an update names, and
-- app/chatwoot_attachments.py: those that a Chatwoot webhook names.
pub mod Kinds
use delta_gateway_chat_woot.Base.{
  ℤ, pos, String, str_eq, Bool, true, false, ◌||◌, List, [], ◌∷◌, ◌++◌, Option, none, some,
  parse_int, if◌then◌else◌,
}
use delta_gateway_chat_woot.Errors.{
  Exc, key_error, index_error, type_error, Result, ok, err, ◌>>=ᵣ◌,
}
use delta_gateway_chat_woot.Values.{
  Value, null, bool, int, str, arr, obj, nil, end, Items, cons, Members, items, dict_of, truthy,
  or_value, get_value, get_default, index, iterate,
}
use delta_gateway_chat_woot.Values.Text.{text_of}

-- _safe_int(v), with None for what is no integer
unfoldable pub safe_int : Value → Value
safe_int (int z) = int z
safe_int (bool true) = int (pos 1)
safe_int (bool false) = int (pos 0)
safe_int (str s) = elim (parse_int s) [ none ↦ null | some z ↦ int z ]
safe_int _ = null

-- an attachment's entry
unfoldable pub entry : String → String → Value → Value → Value → Value → Value → Value
entry source file_type file_id data_url filename mime_type size = dict_of (
    ("source", str source)
    ∷ ("file_type", str file_type)
    ∷ ("file_id", file_id)
    ∷ ("data_url", data_url)
    ∷ ("filename", filename)
    ∷ ("mime_type", mime_type)
    ∷ ("size", size)
    ∷ [])

-- v[-1]
abbrev pub last_of : Items → Result Value
last_of nil = err index_error
last_of (cons v nil) = ok v
last_of (cons v (cons w vs)) = last_of (cons w vs)

abbrev pub last_char : String → Result Value
last_char String.[] = err index_error
last_char (String.◌∷◌ c String.[]) = ok (str (String.◌∷◌ c String.[]))
last_char (String.◌∷◌ c (String.◌∷◌ d s)) = last_char (String.◌∷◌ d s)

abbrev pub last_value : Value → Result Value
last_value (arr vs) = last_of vs
last_value (str s) = last_char s
last_value (obj m) = err key_error
last_value _ = err type_error

-- A name or a type that the code writes, or that it takes from the update with a default.
pub data Named : Type 0 where
  written : String → Named
  taken : (key default : String) → Named

abbrev pub name_of : Named → Value → Result Value
name_of (written s) v = ok (str s)
name_of (taken key default) v = get_default key (str default) v

-- The entry for one kind of media, where the message has it.
unfoldable pub media_entry : String → Named → Named → Value → Result Value
media_entry file_type filename mime_type v = index "file_id" v >>=ᵣ λ file_id.
    name_of filename v >>=ᵣ λ name. name_of mime_type v >>=ᵣ λ mime.
    get_value "file_size" v >>=ᵣ λ size.
    ok (entry "telegram" file_type file_id null name mime (safe_int size))

-- one `if message.get(key):` block
unfoldable pub one_media : String → String → Named → Named → Value → Result (List Value)
one_media key file_type filename mime_type message = get_value key message >>=ᵣ λ v.
    if truthy v
    then ((if str_eq key "photo" then last_value v else ok v) >>=ᵣ λ media.
        media_entry file_type filename mime_type media >>=ᵣ λ e. ok (e ∷ []))
    else ok []

pub record Kind : Type 0 where
  pub key : String
  pub file_type : String
  pub filename : Named
  pub mime_type : Named

kind : String → String → Named → Named → Kind
kind k f n m = record { key = k; file_type = f; filename = n; mime_type = m }

-- The eight blocks, in their order.
unfoldable pub kinds : List Kind
unfolding kind
kinds =
    kind "photo" "image" (written "photo.jpg") (written "image/jpeg")
    ∷ kind "video" "video" (taken "file_name" "video.mp4") (taken "mime_type" "video/mp4")
    ∷ kind "video_note" "video" (written "video_note.mp4") (written "video/mp4")
    ∷ kind "audio" "audio" (taken "file_name" "audio.mp3") (taken "mime_type" "audio/mpeg")
    ∷ kind "voice" "audio" (written "voice.ogg") (taken "mime_type" "audio/ogg")
    ∷ kind "document" "file" (taken "file_name" "document")
        (taken "mime_type" "application/octet-stream")
    ∷ kind "sticker" "image" (written "sticker.webp") (written "image/webp")
    ∷ kind "animation" "image" (taken "file_name" "animation.gif") (taken "mime_type" "image/gif")
    ∷ []

unfoldable pub all_media : List Kind → Value → Result (List Value)
all_media [] message = ok []
all_media (k ∷ ks) message = one_media k.key k.file_type k.filename k.mime_type message >>=ᵣ λ es.
    all_media ks message >>=ᵣ λ rest. ok (es ++ rest)

unfoldable pub extract_telegram_attachments : Value → Result (List Value)
extract_telegram_attachments raw_data =
    get_default "message" (obj end) raw_data >>=ᵣ λ message. all_media kinds message

-- file_type, if it is one of the four
abbrev pub known_type : String → String
known_type t =
    if str_eq t "image" || (str_eq t "video" || (str_eq t "audio" || str_eq t "file"))
    then t
    else "file"

unfoldable pub chatwoot_entry : Value → Result Value
chatwoot_entry item = get_default "file_type" (str "file") item >>=ᵣ λ file_type.
    get_value "data_url" item >>=ᵣ λ data_url. get_value "file_name" item >>=ᵣ λ file_name.
    (if truthy file_name then ok file_name else get_value "filename" item) >>=ᵣ λ filename.
    get_value "content_type" item >>=ᵣ λ mime_type. get_value "file_size" item >>=ᵣ λ size. ok (
      entry "chatwoot" (known_type (text_of file_type)) null data_url filename mime_type
        (safe_int size))

unfoldable pub chatwoot_entries : List Value → Result (List Value)
chatwoot_entries [] = ok []
chatwoot_entries (v ∷ vs) =
    chatwoot_entry v >>=ᵣ λ e. chatwoot_entries vs >>=ᵣ λ rest. ok (e ∷ rest)

unfoldable pub extract_chatwoot_attachments : Value → Result (List Value)
extract_chatwoot_attachments raw_data =
    get_default "attachments" (arr nil) raw_data >>=ᵣ λ attachments.
    iterate attachments >>=ᵣ λ each. chatwoot_entries each
