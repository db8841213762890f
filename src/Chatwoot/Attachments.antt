-- ===== src/Chatwoot/Attachments.antt =====
-- _normalize_attachments of infrastructure/chatwoot_client/cw_client.py, with what pydantic does for
-- core/attachment_models.py: a value that both classes take is the one with more of its fields set.
-- `data_encoding` is read but not kept, since nothing uses it.
use delta_gateway_chat_woot.Base.{String, str_eq, List, [], ◌∷◌, Option, none, some, if◌then◌else◌}
use delta_gateway_chat_woot.Errors.{value_error, Result, ok, err, ◌>>=ᵣ◌}
use delta_gateway_chat_woot.Models.{ChatwootAttachment, uploaded, base64}
use delta_gateway_chat_woot.Values.{Value, str, arr, obj, nil, Items, cons, Members, find, truthy}

-- a field `str`, with its default if it has one
text_field : Option String → Option Value → Result String
text_field _ (some (str s)) = ok s
text_field (some default) none = ok default
text_field _ _ = err value_error

literal_field : String → Option Value → Result (Unit {0})
literal_field s none = ok tt
literal_field s (some (str t)) = if str_eq t s then ok tt else err value_error
literal_field s _ = err value_error

uploaded_of : Members → Result ChatwootAttachment
uploaded_of d = literal_field "uploaded" (find "kind" d) >>=ᵣ λ kind.
    text_field none (find "signed_id" d) >>=ᵣ λ i. ok (uploaded i)

base64_of : Members → Result ChatwootAttachment
base64_of d = literal_field "base64" (find "kind" d) >>=ᵣ λ kind.
    text_field none (find "filename" d) >>=ᵣ λ filename.
    text_field none (find "mime_type" d) >>=ᵣ λ mime_type.
    text_field (some "file") (find "file_type" d) >>=ᵣ λ file_type.
    text_field none (find "data" d) >>=ᵣ λ content.
    text_field (some "base64") (find "data_encoding" d) >>=ᵣ λ encoding.
    ok (base64 filename mime_type file_type content)

pub attachment_of : Value → Result ChatwootAttachment
attachment_of (obj d) = elim (base64_of d) [ ok a ↦ ok a | err e ↦ uploaded_of d ]
attachment_of _ = err value_error

pub attachments_of : Items → Result (List ChatwootAttachment)
attachments_of nil = ok []
attachments_of (cons v vs) = attachment_of v >>=ᵣ λ a. attachments_of vs >>=ᵣ λ rest. ok (a ∷ rest)

unfoldable pub normalize_attachments : Value → Result (List ChatwootAttachment)
unfolding text_field literal_field uploaded_of base64_of attachment_of attachments_of
normalize_attachments (arr vs) = attachments_of vs
normalize_attachments v = if truthy v then err value_error else ok []
