-- ===== src/Orchestrator.antt =====
-- app/services/channel_to_chatwoot_orchestrator.py. The name that generate_username draws is an
-- argument, since it is random.
pub mod Prefixes
use delta_gateway_chat_woot.Base.{ℕ, String, Bool, Option, some, if◌then◌else◌}
use delta_gateway_chat_woot.Base.Dict.{Dict}
use delta_gateway_chat_woot.Exec.{Exec, ◌>>=◌, ◌>>◌, pure, lift}
use delta_gateway_chat_woot.Models.{Envelope, SenderInfo, text, id_text}
use delta_gateway_chat_woot.Envelope.{add_channel_prefix}
use delta_gateway_chat_woot.Values.{Value}
use delta_gateway_chat_woot.World.{World}
use delta_gateway_chat_woot.Alias.{get_or_create_alias}
use delta_gateway_chat_woot.Registry.{Channel, get_channel}

module _ {Q : Type 0} (uuid : ℕ → String) where
  -- The envelope with the sender that Chatwoot is to see.
  unfoldable pub address_sender : Bool → String → String → Envelope → Exec (World Q) Envelope
  address_sender anonymize_users username channel_name envelope =
      let raw_id = envelope.sender.external_id in
      if anonymize_users
      then (do
        alias ← get_or_create_alias uuid channel_name (id_text raw_id)
        pure (record envelope {
          sender = record envelope.sender {
            external_id = text alias;
            raw_external_id = some raw_id;
            name = some username;
          };
        }))
      else pure (record envelope {
        sender = record envelope.sender {
          external_id = text (add_channel_prefix (id_text raw_id) channel_name);
          raw_external_id = some raw_id;
        };
      })

  unfoldable pub process :
      Bool → String → Dict (Channel (World Q)) → String → Value → Exec (World Q) (Unit {0})
  process anonymize_users username channels channel_name raw_data = do
    channel ← lift (get_channel channel_name channels)
    built ← channel.build_channel_message raw_data
    addressed ← address_sender anonymize_users username channel_name built.1
    channel.publish_channel_message built.0 addressed raw_data
