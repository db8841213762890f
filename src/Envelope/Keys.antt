-- ===== src/Envelope/Keys.antt =====
-- The idempotency keys of core/interfaces/envelope_factory.py, compared.
use text.Mathlib.TextLemmas.{append_inj, append_cancel_left, length-append}
use delta_gateway_chat_woot.Base.{String, append, count, ◌≡◌, arith, refl, sym, ap, ◌∙◌, [], ◌∷◌}
use delta_gateway_chat_woot.Base.Dict.{Dict}
use delta_gateway_chat_woot.Models.{ExternalId, id_text}
use delta_gateway_chat_woot.Errors.{ok}
use delta_gateway_chat_woot.Envelope.{extra_hash, key_text, build_idempotency_key}

suffix_inj : {s t a b : String} → append s a ≡ append t b → count a ≡ count b → (s ≡ t) × (a ≡ b)
suffix_inj {s} {t} {a} {b} e h =
    append_inj e (omega (arith, length-append s a, length-append t b, ap count e, h))

-- A key that was built is the text of its parts.
pub key_of :
    (hash : String → String) (direction c m : String) (e : ExternalId) (x : Dict String)
    (key : String)
    → build_idempotency_key hash direction c e m x ≡ ok key
    → key_text hash direction c (id_text e) m x ≡ key
unfolding build_idempotency_key
key_of hash direction c m e x key h = ground arith

module _ (hash : String → String) (twelve : (s : String) → count (hash s) ≡ 12) where
  count-extra_hash : (extra : Dict String) → count (extra_hash hash extra) ≡ 12
  unfolding extra_hash
  count-extra_hash [] = refl
  count-extra_hash (e ∷ es) = twelve _

  count-part : (s : String) → count s ≡ 12 → count (append ":" s) ≡ 13
  count-part s h = omega (arith, length-append ":" s, h)

  count-hash_parts :
      (extra : Dict String) (e m : String)
      → count (
          append
            (append ":" (extra_hash hash extra))
            (append (append ":" (hash e)) (append ":" (hash m))))
        ≡ 39
  count-hash_parts extra e m = omega (
    arith,
    length-append (append ":" (extra_hash hash extra))
        (append (append ":" (hash e)) (append ":" (hash m))),
    length-append (append ":" (hash e)) (append ":" (hash m)),
    count-part _ (count-extra_hash extra),
    count-part _ (twelve e),
    count-part _ (twelve m),
  )

  -- The texts behind the direction have one length each, so equal keys agree part by part.
  key_text-inj :
      (d c c' e e' m m' : String) (x x' : Dict String)
      → key_text hash d c e m x ≡ key_text hash d c' e' m' x'
      → (c ≡ c')
        × (extra_hash hash x ≡ extra_hash hash x')
        × (hash e ≡ hash e')
        × (hash m ≡ hash m')
  unfolding key_text
  key_text-inj d c c' e e' m m' x x' h =
      let (front, back) = suffix_inj h (count-hash_parts x e m ∙ sym (count-hash_parts x' e' m')) in
      let (extras, ids) =
        append_inj back
          (count-part _ (count-extra_hash x) ∙ sym (count-part _ (count-extra_hash x'))) in
      let (users, messages) =
        append_inj ids (count-part _ (twelve e) ∙ sym (count-part _ (twelve e'))) in
      (
        append_cancel_left ":" _ _ (append_cancel_left d _ _ front),
        append_cancel_left ":" _ _ extras,
        append_cancel_left ":" _ _ users,
        append_cancel_left ":" _ _ messages,
      )

  -- With a hash of twelve characters: two messages of one direction have the same idempotency key
  -- only if they have the same connector and the same hashes of the extra arguments, of the user
  -- and of the message's id.
  pub build_idempotency_key-inj :
      (direction c c' m m' : String) (e e' : ExternalId) (x x' : Dict String) (key : String)
      → build_idempotency_key hash direction c e m x ≡ ok key
      → build_idempotency_key hash direction c' e' m' x' ≡ ok key
      → (c ≡ c')
        × (extra_hash hash x ≡ extra_hash hash x')
        × (hash (id_text e) ≡ hash (id_text e'))
        × (hash m ≡ hash m')
  unfolding build_idempotency_key
  build_idempotency_key-inj direction c c' m m' e e' x x' key h h' =
      key_text-inj direction c c' (id_text e) (id_text e') m m' x x'
        (key_of hash direction c m e x key h ∙ sym (key_of hash direction c' m' e' x' key h'))
