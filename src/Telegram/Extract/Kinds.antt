-- ===== src/Telegram/Extract/Kinds.antt =====
-- Which attachments the two extractions give.
use delta_gateway_chat_woot.Base.{
  ℕ, suc, ◌≤◌, String, str_eq, true, false, List, [], ◌∷◌, ◌++◌, All, length, length-append, ◌≡◌,
  refl, ap, arith, if◌then◌else◌,
}
use delta_gateway_chat_woot.Errors.{ok, ◌>>=ᵣ◌, Gives, bind-Gives, bind-Gives₂}
use delta_gateway_chat_woot.Values.{
  Value, null, str, arr, obj, nil, end, find, get_value, iterate, index, truthy, get_default,
}
use delta_gateway_chat_woot.Values.Text.{text_of}
use delta_gateway_chat_woot.Telegram.Extract.{
  entry, safe_int, known_type, media_entry, name_of, last_value, Named, one_media, all_media, kinds,
  Kind, extract_telegram_attachments, extract_chatwoot_attachments, chatwoot_entry,
  chatwoot_entries,
}

-- An entry whose type is one that the channels distinguish.
abbrev pub IsKnown : Value → Type 0
IsKnown v = (t : String) × (index "file_type" v ≡ ok (str t)) × (known_type t ≡ t)

known_type-known : (t : String) → known_type (known_type t) ≡ known_type t
known_type-known t = ground arith

entry-IsKnown :
    (source t : String) (i d n m s : Value) → known_type t ≡ t → IsKnown (entry source t i d n m s)
unfolding entry index find
entry-IsKnown source t i d n m s k = (t, refl, k)

chatwoot_entry-IsKnown : (item : Value) → Gives IsKnown (chatwoot_entry item)
unfolding chatwoot_entry
chatwoot_entry-IsKnown item = bind-Gives IsKnown (get_default "file_type" (str "file") item) _ (λ t.
    bind-Gives IsKnown (get_value "data_url" item) _ (λ u.
      bind-Gives IsKnown (get_value "file_name" item) _ (λ n.
        bind-Gives IsKnown (if truthy n then ok n else get_value "filename" item) _ (λ f.
          bind-Gives IsKnown (get_value "content_type" item) _ (λ m.
            bind-Gives IsKnown (get_value "file_size" item) _ (λ s.
              entry-IsKnown "chatwoot" (known_type (text_of t)) null u f m (safe_int s)
                (known_type-known (text_of t))))))))

-- One entry for each of the items, all of known types.
abbrev pub IsComplete : List Value → List Value → Type 0
IsComplete given es = (length es ≡ length given) × All IsKnown es

chatwoot_entries-IsKnown : (given : List Value) → Gives (IsComplete given) (chatwoot_entries given)
unfolding chatwoot_entries
chatwoot_entries-IsKnown [] = (refl, tt)
chatwoot_entries-IsKnown (v ∷ vs) =
    bind-Gives₂ IsKnown (IsComplete (v ∷ vs)) (chatwoot_entry v) _ (chatwoot_entry-IsKnown v)
      (λ e known.
        bind-Gives₂ (IsComplete vs) (IsComplete (v ∷ vs)) (chatwoot_entries vs) _
          (chatwoot_entries-IsKnown vs) (λ es (l, all). (ap suc l, (known, all))))

All-append : (xs ys : List Value) → All IsKnown xs → All IsKnown ys → All IsKnown (xs ++ ys)
All-append [] ys a b = b
All-append (x ∷ xs) ys (k, a) b = (k, All-append xs ys a b)

media_entry-IsKnown :
    (t : String) (n m : Named) (v : Value) → known_type t ≡ t → Gives IsKnown (media_entry t n m v)
unfolding media_entry
media_entry-IsKnown t n m v h = bind-Gives IsKnown (index "file_id" v) _ (λ i.
    bind-Gives IsKnown (name_of n v) _ (λ name. bind-Gives IsKnown (name_of m v) _ (λ mime.
      bind-Gives IsKnown (get_value "file_size" v) _
        (λ size. entry-IsKnown "telegram" t i null name mime (safe_int size) h))))

-- At most one entry, of a known type.
abbrev pub IsFew : ℕ → List Value → Type 0
IsFew n es = (length es ≤ n) × All IsKnown es

one_media-IsFew :
    (key t : String) (n m : Named) (message : Value)
    → known_type t ≡ t
    → Gives (IsFew 1) (one_media key t n m message)
unfolding one_media
one_media-IsFew key t n m message h = bind-Gives (IsFew 1) (get_value key message) _ (λ v.
    elim (truthy v)
      as (λ b. Gives (IsFew 1) (
        if b
        then ((if str_eq key "photo" then last_value v else ok v) >>=ᵣ λ media.
            media_entry t n m media >>=ᵣ λ e. ok (e ∷ []))
        else ok [])) [
          | true ↦
              bind-Gives (IsFew 1) (if str_eq key "photo" then last_value v else ok v) _ (λ media.
                bind-Gives₂ IsKnown (IsFew 1) (media_entry t n m media) _
                  (media_entry-IsKnown t n m media h) (λ e known. (omega arith, (known, tt))))
          | false ↦ (omega arith, tt)
        ])

all_media-IsFew :
    (ks : List Kind) (message : Value)
    → All (λ k. known_type k.file_type ≡ k.file_type) ks
    → Gives (IsFew (length ks)) (all_media ks message)
unfolding all_media
all_media-IsFew [] message h = (omega arith, tt)
all_media-IsFew (k ∷ ks) message (h, hs) =
    bind-Gives₂ (IsFew 1) (IsFew (length (k ∷ ks)))
      (one_media k.key k.file_type k.filename k.mime_type message) _
      (one_media-IsFew k.key k.file_type k.filename k.mime_type message h)
      (λ es (few, known).
        bind-Gives₂ (IsFew (length ks)) (IsFew (length (k ∷ ks))) (all_media ks message) _
          (all_media-IsFew ks message hs)
          (λ rest (few', known').
            (omega (arith, few, few', length-append es rest), All-append es rest known known')))

-- An update gives at most eight attachments, each of a type that the channels distinguish.
pub extract_telegram_attachments-IsFew :
    (raw_data : Value) → Gives (IsFew 8) (extract_telegram_attachments raw_data)
unfolding extract_telegram_attachments kinds
extract_telegram_attachments-IsFew raw_data =
    bind-Gives (IsFew 8) (get_default "message" (obj end) raw_data) _ (λ message.
      all_media-IsFew kinds message
        (refl, (refl, (refl, (refl, (refl, (refl, (refl, (refl, tt)))))))))

-- A webhook's attachments become one entry each, of a type that the channels distinguish, whatever
-- types the webhook names.
pub extract_chatwoot_attachments-IsComplete :
    (raw_data given : Value) (each : List Value)
    → get_default "attachments" (arr nil) raw_data ≡ ok given
    → iterate given ≡ ok each
    → Gives (IsComplete each) (extract_chatwoot_attachments raw_data)
unfolding extract_chatwoot_attachments
extract_chatwoot_attachments-IsComplete raw_data given each h i =
    rw (h, i) (chatwoot_entries-IsKnown each)
