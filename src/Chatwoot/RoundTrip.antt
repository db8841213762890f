-- ===== src/Chatwoot/RoundTrip.antt =====
-- Attachments that a channel puts into an envelope, as the Chatwoot client reads them.
use delta_gateway_chat_woot.Base.{List, [], ◌∷◌, map, ◌≡◌, refl}
use delta_gateway_chat_woot.Errors.{ok}
use delta_gateway_chat_woot.Models.{ChatwootAttachment, uploaded, base64, attachment_value}
use delta_gateway_chat_woot.Values.{arr, arr_of, find}
use delta_gateway_chat_woot.Chatwoot.Attachments.{
  normalize_attachments, attachment_of, attachments_of,
}

attachment_of-value : (a : ChatwootAttachment) → attachment_of (attachment_value a) ≡ ok a
unfolding normalize_attachments attachment_value find
attachment_of-value (uploaded i) = refl
attachment_of-value (base64 filename mime_type file_type content) = refl

attachments_of-values :
    (attachments : List ChatwootAttachment)
    → attachments_of (arr_of (map attachment_value attachments)) ≡ ok attachments
unfolding normalize_attachments
attachments_of-values [] = refl
attachments_of-values (a ∷ rest) = rw (attachment_of-value a, attachments_of-values rest)

-- The client reads the attachments of a queued envelope as the channel made them, in their order.
pub normalize-attachment_value :
    (attachments : List ChatwootAttachment)
    → normalize_attachments (arr (arr_of (map attachment_value attachments))) ≡ ok attachments
unfolding normalize_attachments
normalize-attachment_value attachments = attachments_of-values attachments
