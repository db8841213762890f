-- ===== src/Envelope/Prefix.antt =====
-- The channel prefixes of core/interfaces/envelope_factory.py.
use delta_gateway_chat_woot.Base.{
  String, starts_with, starts_with-append_lem, drop_prefix-append, ◌≡◌, true, false,
}
use delta_gateway_chat_woot.Envelope.{channel_prefix, add_channel_prefix, strip_channel_prefix}

pub starts_with-add_channel_prefix :
    (raw_id channel : String)
    → starts_with (add_channel_prefix raw_id channel) (channel_prefix channel) ≡ true
unfolding add_channel_prefix
starts_with-add_channel_prefix raw_id channel =
    starts_with-append_lem (channel_prefix channel) raw_id

pub strip-add_channel_prefix :
    (raw_id channel : String)
    → strip_channel_prefix (add_channel_prefix raw_id channel) channel ≡ raw_id
unfolding strip_channel_prefix
strip-add_channel_prefix raw_id channel =
    rw (starts_with-add_channel_prefix raw_id channel)
      (unfold add_channel_prefix in drop_prefix-append (channel_prefix channel) raw_id)

-- A text without the prefix is left as it is.
pub strip_channel_prefix_ne :
    (identifier channel : String)
    → starts_with identifier (channel_prefix channel) ≡ false
    → strip_channel_prefix identifier channel ≡ identifier
unfolding strip_channel_prefix
strip_channel_prefix_ne identifier channel h = rw h
