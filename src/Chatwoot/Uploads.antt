-- ===== src/Chatwoot/Uploads.antt =====
-- infrastructure/chatwoot_client/cw_client.py: attachments. `signed_id` is searched for in the
-- `file_url` of the response where the response does not name it.
use delta_gateway_chat_woot.Base.{
  ℕ, zero, suc, ◌-◌, String, append, len, str_eq, starts_with, Bool, false, not, ◌||◌, List, [],
  ◌∷◌, Option, none, some, any, if◌then◌else◌,
}
use delta_gateway_chat_woot.Errors.{type_error, attribute_error, Result, ok, err, ◌>>=ᵣ◌}
use delta_gateway_chat_woot.Exec.{Exec, ◌>>=◌, pure, lift}
use delta_gateway_chat_woot.Models.{ChatwootAttachment, uploaded, base64}
use delta_gateway_chat_woot.Values.{
  Value, null, str, arr, obj, items, dict_of, find, truthy, get_value, get_default,
}
use delta_gateway_chat_woot.Values.Text.{text_of}
use delta_gateway_chat_woot.Chatwoot.Http.{Request, Reply, form, ask}

-- s.split(sep), with `skip` characters of a separator still to pass over
split_from : String → ℕ → String → String → List String
split_from sep skip acc String.[] = acc ∷ []
split_from sep (suc skip) acc (String.◌∷◌ c s) = split_from sep skip acc s
split_from sep zero acc (String.◌∷◌ c s) =
    let hit = starts_with (String.◌∷◌ c s) sep in
    let rest =
      split_from sep (if hit then len sep - 1 else 0)
        (if hit then "" else append acc (String.◌∷◌ c "")) s in
    if hit then acc ∷ rest else rest

unfoldable pub split : String → String → List String
unfolding split_from
split s sep = split_from sep 0 "" s

-- What stands before the last slash.
before_slash : String → Option String
before_slash String.[] = none
before_slash (String.◌∷◌ c s) = elim (before_slash s) [
  | some r ↦ some (String.◌∷◌ c r)
  | none ↦ if str_eq (String.◌∷◌ c "") "/" then some "" else none
]

-- s.rsplit("/", 1)[0]
unfoldable pub rsplit_slash : String → String
unfolding before_slash
rsplit_slash s = elim (before_slash s) [ none ↦ s | some r ↦ r ]

-- file_url.split("redirect/")[1].rsplit("/", 1)[0], if "redirect/" in file_url
redirect_id : String → Option String
redirect_id file_url = elim (split file_url "redirect/") [
  | [] ↦ none
  | x ∷ rest ↦ elim rest [ [] ↦ none | y ∷ more ↦ some (rsplit_slash y) ]
]

is_redirect : Value → Bool
is_redirect (str s) = str_eq s "redirect/"
is_redirect _ = false

signed_from : Value → Value → Result Value
signed_from (str s) signed_id = ok (elim (redirect_id s) [ none ↦ signed_id | some i ↦ str i ])
signed_from (arr vs) signed_id =
    if any is_redirect (items vs) then err attribute_error else ok signed_id
signed_from (obj m) signed_id = elim (find "redirect/" m) [
  | none ↦ ok signed_id
  | some v ↦ err attribute_error
]
signed_from _ signed_id = err type_error

-- What `_upload_bytes` returns for the response's data; `null` stands for None.
unfoldable pub upload_result : String → Value → Result Value
unfolding signed_from redirect_id is_redirect
upload_result mime_type response_data = get_value "file_url" response_data >>=ᵣ λ file_url.
    if not (truthy file_url)
    then ok null
    else (get_value "signed_id" response_data >>=ᵣ λ given.
        (if truthy given then ok given else signed_from file_url given) >>=ᵣ λ signed_id.
        if not (truthy signed_id)
        then ok null
        else (get_default "file_type" (str mime_type) response_data >>=ᵣ λ file_type.
            get_value "file_size" response_data >>=ᵣ λ file_size. ok (
              dict_of (
                ("signed_id", signed_id)
                ∷ ("file_url", file_url)
                ∷ ("file_type", file_type)
                ∷ ("file_size", file_size)
                ∷ []))))

has_slash : String → Bool
has_slash String.[] = false
has_slash (String.◌∷◌ c s) = str_eq (String.◌∷◌ c "") "/" || has_slash s

unfoldable pub resolve_mime_type : (String → Option String) → String → String → String
unfolding has_slash
resolve_mime_type guess_type mime_type filename =
    if str_eq mime_type "" || not (has_slash mime_type)
    then elim (guess_type filename) [ none ↦ "application/octet-stream" | some t ↦ t ]
    else mime_type

-- the id of an upload that gave one
abbrev pub signed : Value → Result (Option String)
signed result =
    if truthy result
    then (get_value "signed_id" result >>=ᵣ λ i. ok (if truthy i then some (text_of i) else none))
    else ok none

abbrev pub kept : Option String → List String → List String
kept none ids = ids
kept (some i) ids = i ∷ ids

module _ {S B : Type 0} (http : Request B → Exec S Reply) (base_url account_id : String) where
  unfoldable pub upload_bytes : B → String → String → Exec S Value
  upload_bytes file_content filename mime_type =
      ask http
        (record {
          method = "POST";
          url = append base_url (append "/api/v1/accounts/" (append account_id "/upload"));
          params = [];
          body = form file_content filename mime_type;
        })
        (upload_result mime_type)

  module _ (b64decode : String → Option B) (guess_type : String → Option String) where
    -- `none` stands for a content that could not be decoded
    unfoldable pub upload_decoded : Option B → String → String → Exec S Value
    upload_decoded none filename mime_type = pure null
    upload_decoded (some content) filename mime_type =
        upload_bytes content filename (resolve_mime_type guess_type mime_type filename)

    unfoldable pub upload_base64_data : String → String → String → Exec S Value
    upload_base64_data encoded filename mime_type =
        upload_decoded (b64decode encoded) filename mime_type

    unfoldable pub upload_attachment : ChatwootAttachment → Exec S (Option String)
    upload_attachment (uploaded signed_id) = pure (some signed_id)
    upload_attachment (base64 filename mime_type file_type encoded) = do
      result ← upload_base64_data encoded filename mime_type
      lift (signed result)

    unfoldable pub upload_message_attachments : List ChatwootAttachment → Exec S (List String)
    upload_message_attachments [] = pure []
    upload_message_attachments (a ∷ rest) = do
      i ← upload_attachment a
      ids ← upload_message_attachments rest
      pure (kept i ids)
