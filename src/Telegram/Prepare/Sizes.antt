-- ===== src/Telegram/Prepare/Sizes.antt =====
-- The sizes of the attachments that leave for Chatwoot.
use delta_gateway_chat_woot.Base.{
  ◌≤◌, pos, exceeds, String, Bool, true, false, Bool-cases, List, [], ◌∷◌, Option, none, some, All,
  ◌≡◌, inl, inr, refl, arith, if◌then◌else◌,
}
use delta_gateway_chat_woot.Errors.{Result, ok, err, Gives, bind-Gives}
use delta_gateway_chat_woot.Exec.{Exec, ◌>>=◌, continue, pure, lift}
use delta_gateway_chat_woot.Models.{ChatwootAttachment, uploaded, base64}
use delta_gateway_chat_woot.Values.{Value, get_value, get_default, truthy, or_value, str}
use delta_gateway_chat_woot.Telegram.Prepare.{
  FileApi, Limits, text_field, new_attachment, notify_telegram_user, too_large, bytes_of,
  is_over_size_limit, encode, prepare_single, prepare_each, kept,
}

-- What a run gives if it returns, from any state.
abbrev pub Yields : {S A : Type 0} → (A → Type 0) → Exec S A → Type 0
Yields {S = S} P m = (s : S) → Gives P (m s).0

module _ {S : Type 0} where
  continue-Yields :
      {A B : Type 0} (P : B → Type 0) (r : Result A) (f : A → Exec S B) (s : S)
      → ((a : A) → Yields P (f a))
      → Gives P (continue r f s).0
  continue-Yields P (ok a) f s y = y a s
  continue-Yields P (err e) f s y = tt

  bind-Yields :
      {A B : Type 0} (P : B → Type 0) (m : Exec S A) (f : A → Exec S B)
      → ((a : A) → Yields P (f a))
      → Yields P (m >>= f)
  bind-Yields P m f y s = continue-Yields P (m s).0 f (m s).1 y

  continue-Yields₂ :
      {A B : Type 0} (O : A → Type 0) (P : B → Type 0) (r : Result A) (f : A → Exec S B) (s : S)
      → Gives O r
      → ((a : A) → O a → Yields P (f a))
      → Gives P (continue r f s).0
  continue-Yields₂ O P (ok a) f s o y = y a o s
  continue-Yields₂ O P (err e) f s o y = tt

  bind-Yields₂ :
      {A B : Type 0} (O : A → Type 0) (P : B → Type 0) (m : Exec S A) (f : A → Exec S B)
      → Yields O m
      → ((a : A) → O a → Yields P (f a))
      → Yields P (m >>= f)
  bind-Yields₂ O P m f o y s = continue-Yields₂ O P (m s).0 f (m s).1 (o s) y

module _ {S B : Type 0} (api : FileApi S B) (limits : Limits) (connector_id chat_id : String) where
  -- The content of some bytes that the limit for Chatwoot allows.
  abbrev pub IsSmall : ChatwootAttachment → Type 0
  IsSmall (uploaded signed_id) = Unit {0}
  IsSmall (base64 filename mime_type file_type content) =
      (b : B) × (content ≡ api.b64encode b) × (api.size b ≤ bytes_of limits.chatwoot_upload_max_mb)

  abbrev IsSmallIfAny : Option ChatwootAttachment → Type 0
  IsSmallIfAny none = Unit {0}
  IsSmallIfAny (some a) = IsSmall a

  new_attachment-IsSmall :
      (f m t : Value) (b : B)
      → api.size b ≤ bytes_of limits.chatwoot_upload_max_mb
      → Gives IsSmall (new_attachment f m t (api.b64encode b))
  unfolding new_attachment
  new_attachment-IsSmall f m t b small = bind-Gives IsSmall (text_field f) _ (λ f'.
      bind-Gives IsSmall (text_field m) _
        (λ m'. bind-Gives IsSmall (text_field t) _ (λ t'. (b, refl, small))))

  checked-small :
      (b : B)
      → exceeds (pos (api.size b)) (bytes_of limits.chatwoot_upload_max_mb) ≡ false
      → api.size b ≤ bytes_of limits.chatwoot_upload_max_mb
  checked-small b h = ground (arith, h)

  too_large-IsSmall : Yields IsSmallIfAny (too_large api limits connector_id chat_id)
  too_large-IsSmall =
      bind-Yields IsSmallIfAny
        (notify_telegram_user api connector_id chat_id limits.oversize_file_message) _ (λ u s. tt)

  encode-IsSmall :
      (attachment : Value) (o : Option B)
      → Yields IsSmallIfAny (encode api limits connector_id chat_id attachment o)
  unfolding encode is_over_size_limit
  encode-IsSmall attachment none = λ s. tt
  encode-IsSmall attachment (some b) =
      bind-Yields IsSmallIfAny (lift (get_value "filename" attachment)) _ (λ f.
        bind-Yields IsSmallIfAny (lift (get_value "mime_type" attachment)) _ (λ m.
          elim (Bool-cases (exceeds (pos (api.size b)) (bytes_of limits.chatwoot_upload_max_mb))) [
            | inl over ↦ rw over too_large-IsSmall
            | inr under ↦ rw under (
                bind-Yields IsSmallIfAny (lift (get_default "file_type" (str "file") attachment)) _
                  (λ t.
                    bind-Yields₂ IsSmall IsSmallIfAny
                      (lift (
                        new_attachment (or_value f (str "unknown"))
                          (or_value m (str "application/octet-stream")) t (api.b64encode b)))
                      _ (λ s. new_attachment-IsSmall _ _ t b (checked-small b under))
                      (λ a small s. small)))
          ]))

  when-Yields :
      {A : Type 0} (P : A → Type 0) (b : Bool) (m n : Exec S A)
      → Yields P m
      → Yields P n
      → Yields P (if b then m else n)
  when-Yields P true m n y z = y
  when-Yields P false m n y z = z

  prepare_single-IsSmall :
      (attachment : Value)
      → Yields IsSmallIfAny (prepare_single api limits connector_id chat_id attachment)
  unfolding prepare_single
  prepare_single-IsSmall attachment =
      bind-Yields IsSmallIfAny (lift (get_value "file_id" attachment)) _ (λ i.
        when-Yields IsSmallIfAny (truthy i) _ (pure none)
          (bind-Yields IsSmallIfAny (lift (get_value "size" attachment)) _ (λ size.
            bind-Yields IsSmallIfAny (lift (is_over_size_limit size limits.channel_upload_max_mb)) _
              (λ over.
                when-Yields IsSmallIfAny over (too_large api limits connector_id chat_id) _
                  too_large-IsSmall
                  (bind-Yields IsSmallIfAny _ (encode api limits connector_id chat_id attachment)
                    (λ o. encode-IsSmall attachment o)))))
          (λ s. tt))

  kept-IsSmall :
      (o : Option ChatwootAttachment) (rest : List ChatwootAttachment)
      → IsSmallIfAny o
      → All IsSmall rest
      → All IsSmall (kept api limits connector_id chat_id o rest)
  kept-IsSmall none rest small all = all
  kept-IsSmall (some a) rest small all = (small, all)

  -- Every file that is passed on to Chatwoot is one that its limit allows, whatever sizes the
  -- update names and whatever Telegram answers.
  pub prepare_each-IsSmall :
      (attachments : List Value)
      → Yields (All IsSmall) (prepare_each api limits connector_id chat_id attachments)
  unfolding prepare_each
  prepare_each-IsSmall [] = λ s. tt
  prepare_each-IsSmall (a ∷ rest) =
      bind-Yields₂ IsSmallIfAny (All IsSmall) (prepare_single api limits connector_id chat_id a) _
        (prepare_single-IsSmall a)
        (λ o small.
          bind-Yields₂ (All IsSmall) (All IsSmall)
            (prepare_each api limits connector_id chat_id rest) _ (prepare_each-IsSmall rest)
            (λ others all s. kept-IsSmall o others small all))
