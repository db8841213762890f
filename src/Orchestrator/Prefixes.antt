-- ===== src/Orchestrator/Prefixes.antt =====
-- Who Chatwoot sees as the sender.
use delta_gateway_chat_woot.Base.{ℕ, String, true, false, some, ◌≡◌, refl, ap}
use delta_gateway_chat_woot.Errors.{Result, ok, err, Gives, bind-Gives}
use delta_gateway_chat_woot.Exec.{continue, pure}
use delta_gateway_chat_woot.Models.{
  Envelope, text, id_text, model_dump, envelope_members, sender_value, id_value, optional,
}
use delta_gateway_chat_woot.Values.{str, find, index, get_value, get_default}
use delta_gateway_chat_woot.World.{World}
use delta_gateway_chat_woot.Alias.{get_or_create_alias}
use delta_gateway_chat_woot.Envelope.Prefix.{strip-add_channel_prefix}
use delta_gateway_chat_woot.Webhooks.{strip_value}
use delta_gateway_chat_woot.Worker.Delivery.{Delivery, read_payload, sized}
use delta_gateway_chat_woot.Orchestrator.{address_sender}

-- What the worker reads of an envelope: the sender as Chatwoot is to know it.
abbrev pub IsSeenAs : String → String → Delivery → Type 0
IsSeenAs id name d = (d.end_user_id ≡ str id) × (d.name ≡ str name)

dump-IsSeenAs :
    (o : Envelope) (id name : String)
    → o.sender.external_id ≡ text id
    → o.sender.name ≡ some name
    → Gives (IsSeenAs id name) (read_payload (model_dump o))
unfolding read_payload envelope_members sender_value index find get_value get_default
dump-IsSeenAs o id name h k =
    bind-Gives (IsSeenAs id name) (sized _) _ (λ attachments. (ap id_value h, ap optional k))

-- The envelope of an anonymized message, from the alias.
abbrev anonymous : String → Envelope → String → Envelope
anonymous username e alias = record e {
  sender = record e.sender {
    external_id = text alias;
    raw_external_id = some e.sender.external_id;
    name = some username;
  };
}

module _ {Q : Type 0} (uuid : ℕ → String) where
  made :
      (username : String) (e o : Envelope) (r : Result String) (v : World Q)
      → (continue r (λ a. pure (anonymous username e a)) v).0 ≡ ok o
      → (a : String) × (r ≡ ok a) × (o ≡ anonymous username e a)
  made username e o (ok a) v h = (a, refl, cc h)
  made username e o (err x) v h = cc h

  -- With anonymization, if the sender of an envelope was addressed: what the worker reads of the
  -- envelope for Chatwoot, if it can read it, names the sender by the user's alias and the
  -- generated name, whatever the channel told about the sender.
  pub address_sender-IsSeenAs :
      (username channel : String) (e o : Envelope) (w : World Q)
      → (address_sender uuid true username channel e w).0 ≡ ok o
      → (a : String) × ((get_or_create_alias uuid channel (id_text e.sender.external_id) w).0
          ≡ ok a)
        × Gives (IsSeenAs a username) (read_payload (model_dump o))
  unfolding address_sender
  address_sender-IsSeenAs username channel e o w h =
      let (a, r, same) = made username e o _ _ h in
      (
        a,
        r,
        dump-IsSeenAs o a username (ap (λ o'. o'.sender.external_id) same)
            (ap (λ o'. o'.sender.name) same),
      )

  -- Without anonymization the sender is named by a text that leads back to the channel's own
  -- identifier, and nothing is written.
  pub address_sender-reversible :
      (username channel : String) (e : Envelope) (w : World Q)
      → (o : Envelope) × (address_sender uuid false username channel e w ≡ (ok o, w))
        × (strip_value (str (id_text o.sender.external_id)) channel
            ≡ str (id_text e.sender.external_id))
  unfolding address_sender strip_value
  address_sender-reversible username channel e w =
      (_, refl, ap str (strip-add_channel_prefix (id_text e.sender.external_id) channel))
