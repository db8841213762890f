-- ===== src/Envelope.antt =====
-- core/interfaces/envelope_factory.py: channel prefixes and idempotency keys.
pub mod Prefix
pub mod Keys
use Prim.Native.String.{compare}
use Prim.Native.Nat.{Ordering}
use delta_gateway_chat_woot.Base.{
  String, append, str_eq, starts_with, drop_prefix, join, List, [], ◌∷◌, if◌then◌else◌,
}
use delta_gateway_chat_woot.Base.Dict.{Dict}
use delta_gateway_chat_woot.Errors.{Result, ok, err, value_error}
use delta_gateway_chat_woot.Models.{ExternalId, id_text, id_truthy}

-- f"{channel}_"
abbrev pub channel_prefix : String → String
channel_prefix channel = append channel "_"

unfoldable pub add_channel_prefix : String → String → String
add_channel_prefix raw_id channel = append (channel_prefix channel) raw_id

unfoldable pub strip_channel_prefix : String → String → String
strip_channel_prefix identifier channel =
    if starts_with identifier (channel_prefix channel)
    then drop_prefix identifier (channel_prefix channel)
    else identifier

insert_sorted : String → String → Dict String → Dict String
insert_sorted k v [] = (k, v) ∷ []
insert_sorted k v ((j, w) ∷ d) = elim (compare k j) [
  | Ordering.gt ↦ (j, w) ∷ insert_sorted k v d
  | _ ↦ (k, v) ∷ (j, w) ∷ d
]

-- dict(sorted(extra.items()))
pub sorted_items : Dict String → Dict String
unfolding insert_sorted
sorted_items [] = []
sorted_items ((k, v) ∷ d) = insert_sorted k v (sorted_items d)

pairs : Dict String → List String
pairs [] = []
pairs ((k, v) ∷ d) = append k (append "=" v) ∷ pairs d

-- The first twelve hexadecimal digits of the SHA-1 of a text, `hash` here, are hashlib's.
module _ (hash : String → String) where
  unfoldable pub extra_hash : Dict String → String
  unfolding sorted_items pairs
  extra_hash [] = "000000000000"
  extra_hash (e ∷ es) = hash (join ":" (pairs (sorted_items (e ∷ es))))

  -- f"{direction}:{connector_id}:{extra_hash}:{_hash(external_id)}:{_hash(message_id)}"
  pub key_text : String → String → String → String → Dict String → String
  key_text direction connector_id external_id message_id extra =
      append (append direction (append ":" connector_id)) (
        append (append ":" (extra_hash extra))
          (append (append ":" (hash external_id)) (append ":" (hash message_id))))

  unfoldable pub build_idempotency_key :
      String → String → ExternalId → String → Dict String → Result String
  unfolding key_text
  build_idempotency_key direction connector_id external_id message_id extra =
      if id_truthy external_id
      then if str_eq message_id ""
        then err value_error
        else ok (key_text direction connector_id (id_text external_id) message_id extra)
      else err value_error
