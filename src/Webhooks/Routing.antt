-- ===== src/Webhooks/Routing.antt =====
-- Where an outgoing message goes.
use delta_gateway_chat_woot.Base.{
  String, str_eq, starts_with, eq_iff, true, false, Bool-cases, List, [], ◌∷◌, some, Option-cases,
  All, any, ◌≡◌, inl, inr, refl, ap, ◌∙◌, arith,
}
use delta_gateway_chat_woot.Envelope.{channel_prefix, add_channel_prefix}
use delta_gateway_chat_woot.Envelope.Prefix.{
  starts_with-add_channel_prefix, strip-add_channel_prefix,
}
use delta_gateway_chat_woot.Errors.{ok, >>=ᵣ-eq-ok}
use delta_gateway_chat_woot.World.{World}
use delta_gateway_chat_woot.Values.{Value, str, obj, Members, find, set, index}
use delta_gateway_chat_woot.Values.Fields.{find-set_self}
use delta_gateway_chat_woot.Webhooks.{
  prefixed_channel, resolve_outgoing_channel, strip_value, identifier_of, set_identifier, assign,
  direct,
}

-- `channel` is registered, and no other registered name has a prefix that the identifier has.
abbrev pub IsOnlyPrefix : String → String → List String → Type 0
IsOnlyPrefix identifier channel names =
    All (λ n. starts_with identifier (channel_prefix n) ≡ true → n ≡ channel) names

abbrev pub IsListed : String → List String → Type 0
IsListed channel names = any (str_eq channel) names ≡ true

prefixed_channel-only :
    (identifier channel : String) (names : List String)
    → starts_with identifier (channel_prefix channel) ≡ true
    → IsListed channel names
    → IsOnlyPrefix identifier channel names
    → prefixed_channel identifier names ≡ some channel
unfolding prefixed_channel
prefixed_channel-only identifier channel [] h l o = cc l
prefixed_channel-only identifier channel (n ∷ ns) h l (here, later) =
    elim (Bool-cases (starts_with identifier (channel_prefix n))) [
      | inl yes_prefix ↦ rw yes_prefix (ap some (here yes_prefix))
      | inr no_prefix ↦
          rw no_prefix
            (prefixed_channel-only identifier channel ns h (ground (arith, eq_iff channel n)) later)
    ]

index-eq-ok :
    (k : String) (v y : Value)
    → index k v ≡ ok y
    → (d : Members) × (v ≡ obj d) × (find k d ≡ some y)
unfolding index
index-eq-ok k (obj d) y h = elim (Option-cases (find k d)) [
  | inl missing ↦ (d, refl, ground arith)
  | inr (z, there) ↦ (d, refl, ground arith)
]
index-eq-ok k _ y h = cc h

index-find : (k : String) (d : Members) {y : Value} → find k d ≡ some y → index k (obj d) ≡ ok y
unfolding index
index-find k d h = ground arith

index-set : (k : String) (x : Value) (d : Members) → index k (obj (set k x d)) ≡ ok x
index-set k x d = index-find k _ (find-set_self k x d)

-- The four dictionaries on the way to an identifier.
record Way (payload : Value) (y : Value) : Type 0 where
  top : Members
  conversation : Members
  meta : Members
  sender : Members
  is_top : payload ≡ obj top
  to_conversation : find "conversation" top ≡ some (obj conversation)
  to_meta : find "meta" conversation ≡ some (obj meta)
  to_sender : find "sender" meta ≡ some (obj sender)

identifier-Way : (payload y : Value) → identifier_of payload ≡ ok y → Way payload y
unfolding identifier_of
identifier-Way payload y h =
    let (c, e1, h1) = >>=ᵣ-eq-ok _ _ h in
    let (m, e2, h2) = >>=ᵣ-eq-ok _ _ h1 in
    let (s, e3, h3) = >>=ᵣ-eq-ok _ _ h2 in
    let (top, t, f1) = index-eq-ok "conversation" payload c e1 in
    let (dc, tc, f2) = index-eq-ok "meta" c m e2 in
    let (dm, tm, f3) = index-eq-ok "sender" m s e3 in
    let (ds, ts, f4) = index-eq-ok "identifier" s y h3 in
    record {
      top = top;
      conversation = dc;
      meta = dm;
      sender = ds;
      is_top = t;
      to_conversation = f1 ∙ ap some tc;
      to_meta = f2 ∙ ap some tm;
      to_sender = f3 ∙ ap some ts;
    }

abbrev rewritten : {payload y : Value} → Way payload y → Value → Value
rewritten w x = obj (
    set "conversation"
      (obj
        (set "meta" (obj (set "sender" (obj (set "identifier" x w.sender)) w.meta)) w.conversation))
      w.top)

set_identifier-Way :
    (payload y x : Value) (w : Way payload y) → set_identifier x payload ≡ ok (rewritten w x)
unfolding set_identifier assign
set_identifier-Way payload y x w = rw w.is_top (
    rw (index-find "conversation" w.top w.to_conversation) (
      rw (index-find "meta" w.conversation w.to_meta)
        (rw (index-find "sender" w.meta w.to_sender) refl)))

identifier-rewritten :
    (payload y x : Value) (w : Way payload y) → identifier_of (rewritten w x) ≡ ok x
unfolding identifier_of
identifier-rewritten payload y x w = rw (index-set "conversation" _ w.top) (
    rw (index-set "meta" _ w.conversation)
      (rw (index-set "sender" _ w.meta) (index-set "identifier" x w.sender)))

-- A reply goes to the channel that the contact came from, under the identifier that the channel
-- gave, whatever channel the webhook's URL names, if no other registered name has the prefix.
pub reply-returns :
    (raw_id channel url_channel : String) (names : List String)
    → IsListed channel names
    → IsOnlyPrefix (add_channel_prefix raw_id channel) channel names
    → (resolve_outgoing_channel (str (add_channel_prefix raw_id channel)) url_channel names
        ≡ channel)
      × (strip_value
            (str (add_channel_prefix raw_id channel))
            (resolve_outgoing_channel (str (add_channel_prefix raw_id channel)) url_channel names)
          ≡ str raw_id)
unfolding resolve_outgoing_channel strip_value
reply-returns raw_id channel url_channel names l o =
    let e =
      prefixed_channel-only (add_channel_prefix raw_id channel) channel names
        (starts_with-add_channel_prefix raw_id channel) l o in
    (
      rw (e, resolve_outgoing_channel),
      rw (e, resolve_outgoing_channel) (ap str (strip-add_channel_prefix raw_id channel)),
    )

-- Without anonymization, for a payload whose identifier is a registered channel's prefix and an
-- identifier of that channel, and no other registered name has a prefix that the identifier has:
-- the handler directs the payload to that channel, whatever channel the URL names, with the
-- channel's own identifier in place of the prefixed one, and changes nothing else of the world.
pub direct-returns :
    {Q : Type 0} (raw_id channel url_channel : String) (names : List String) (payload : Value)
    (w : World Q)
    → identifier_of payload ≡ ok (str (add_channel_prefix raw_id channel))
    → IsListed channel names
    → IsOnlyPrefix (add_channel_prefix raw_id channel) channel names
    → (p : Value) × (direct false url_channel names payload w ≡ (ok (channel, p), w))
      × (identifier_of p ≡ ok (str raw_id))
unfolding direct
direct-returns raw_id channel url_channel names payload w h l o =
    let way = identifier-Way payload (str (add_channel_prefix raw_id channel)) h in
    let (target, stripped) = reply-returns raw_id channel url_channel names l o in
    (
      rewritten way (str raw_id),
      rw (h, stripped, target, set_identifier-Way payload _ (str raw_id) way) refl,
      identifier-rewritten payload _ (str raw_id) way,
    )
