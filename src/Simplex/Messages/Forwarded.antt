-- ===== src/Simplex/Messages/Forwarded.antt =====
-- Which chat items of the CLI the channel forwards.
use delta_gateway_chat_woot.Base.{
  ℤ, String, trim, str_eq, Bool, ◌&&◌, not, [], ◌∷◌, none, some, if◌then◌else◌, ◌≡◌, eq_iff,
  Bool-cases, inl, inr,
}
use delta_gateway_chat_woot.Errors.{ok}
use delta_gateway_chat_woot.Values.{
  Value, int, str, dict_of, find, truthy, or_value, get_default, get_value,
}
use delta_gateway_chat_woot.Simplex.Messages.{get_in, message_of, normalize, strip}

-- A chat item as the CLI sends it.
pub record ChatItem : Type 0 where
  pub chat_type : String
  pub contact_id : ℤ
  pub display_name : String
  pub direction : String
  pub content_type : String
  pub text : String
  pub item_id : ℤ

abbrev pub entry_of : ChatItem → Value
entry_of c = dict_of (
    (
      "chatInfo",
      dict_of (
          ("type", str c.chat_type)
          ∷ (
            "contact",
            dict_of
                (("contactId", int c.contact_id) ∷ ("localDisplayName", str c.display_name) ∷ []),
          )
          ∷ []),
    )
    ∷ (
      "chatItem",
      dict_of (
          ("chatDir", dict_of (("type", str c.direction) ∷ []))
          ∷ ("meta", dict_of (("itemId", int c.item_id) ∷ []))
          ∷ (
            "content",
            dict_of (
                ("msgContent", dict_of (("type", str c.content_type) ∷ ("text", str c.text) ∷ []))
                ∷ []),
          )
          ∷ []),
    )
    ∷ [])

-- What is to be forwarded: texts that a contact has sent in a chat of two.
abbrev pub is_forwarded : ChatItem → Bool
is_forwarded c =
    str_eq c.chat_type "direct"
    && (str_eq c.direction "directRcv"
        && (str_eq c.content_type "text" && not (str_eq (trim c.text) "")))

strip-text : (t : String) → strip (or_value (str t) (str "")) ≡ ok (trim t)
unfolding strip or_value truthy
strip-text t = elim (Bool-cases (str_eq t "")) [
  | inl empty ↦ rw ((eq_iff t "").0 empty)
  | inr filled ↦ rw filled
]

-- A chat item is forwarded exactly if it is a text that is not blank, which a contact sent in a chat
-- of two; never one of the gateway's own, a group's, or another kind of content. The message has the
-- contact's id, its name or else its id, the item's id, and the text without the spaces around it.
pub normalize-forwards :
    (c : ChatItem)
    → normalize (entry_of c)
      ≡ ok (
          if is_forwarded c
          then some
              (message_of (int c.contact_id) (str c.display_name) (int c.item_id) (trim c.text))
          else none)
unfolding normalize get_in get_default get_value find or_value trim message_of truthy
normalize-forwards c = rw (strip-text c.text) (elim (Bool-cases (str_eq c.chat_type "direct")) [
  | inr group ↦ rw group
  | inl direct ↦ rw direct (elim (Bool-cases (str_eq c.direction "directRcv")) [
    | inr own ↦ rw own
    | inl received ↦ rw received (elim (Bool-cases (str_eq c.content_type "text")) [
      | inr other ↦ rw other
      | inl text ↦ rw text (elim (Bool-cases (str_eq (trim c.text) "")) [
        | inl blank ↦ rw blank
        | inr filled ↦ rw filled
      ])
    ])
  ])
])
