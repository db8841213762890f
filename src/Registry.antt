-- ===== src/Registry.antt =====
-- core/interfaces/channel.py and infrastructure/registry.py. Python's `str.lower` and the entry
-- points of the installation are parameters; a channel object is known by its `id`.
pub mod Unique
use delta_gateway_chat_woot.Base.{
  ℕ, suc, ◌==◌, String, str_eq, Bool, true, false, not, ◌&&◌, ◌||◌, List, [], ◌∷◌, Option, none,
  some, any, is_empty, map, if◌then◌else◌,
}
use delta_gateway_chat_woot.Base.Dict
use delta_gateway_chat_woot.Base.Dict.{Dict}
use delta_gateway_chat_woot.Errors.{Exc, value_error, runtime_error, Result, ok, err, ◌>>=ᵣ◌}
use delta_gateway_chat_woot.Exec.{Exec}
use delta_gateway_chat_woot.Models.{Envelope, ChannelDeliveryResult}
use delta_gateway_chat_woot.Values.{Value}

-- a channel object: IChannel's abstract methods, over the state `S`
pub record Channel (S : Type 0) : Type 0 where
  pub id : ℕ
  pub channel : String
  pub send_to_user : Value → Exec S ChannelDeliveryResult
  pub build_channel_message : Value → Exec S (String × Envelope)
  pub publish_channel_message : String → Envelope → Value → Exec S (Unit {0})
  pub publish_chatwoot_message : Value → String → Exec S (Unit {0})

-- an entry point, with what its `load` gives
pub record EntryPoint (S : Type 0) : Type 0 where
  pub name : String
  pub load : Result (Channel S)

pub record Found (S : Type 0) : Type 0 where
  pub channels : Dict (Channel S)
  pub discovered : ℕ

abbrev member : String → List String → Bool
member s names = any (str_eq s) names

-- target_names, where None stands for "no filter"
targets : (String → String) → List String → Option (List String)
targets lower [] = none
targets lower (n ∷ ns) = some (map lower (n ∷ ns))

has_all : List String → List String → Bool
has_all [] names = true
has_all (t ∷ ts) names = member t names && has_all ts names

module _ {S : Type 0} (lower : String → String) where
  is_wanted : Option (List String) → EntryPoint S → Channel S → Bool
  is_wanted none ep c = true
  is_wanted (some names) ep c = member (lower ep.name) names || member (lower c.channel) names

  -- self._channels[channel.channel] = channel, and the entry point's name if it is another
  register : EntryPoint S → Channel S → Dict (Channel S) → Dict (Channel S)
  register ep c d =
      let d' = Dict.put c.channel c d in
      if str_eq ep.name c.channel then d' else Dict.put ep.name c d'

  load_all : Option (List String) → List (EntryPoint S) → Found S → Result (Found S)
  unfolding is_wanted register
  load_all names [] found = ok found
  load_all names (ep ∷ eps) found = ep.load >>=ᵣ λ c. load_all names eps (
      if is_wanted names ep c
      then record { channels = register ep c found.channels; discovered = suc found.discovered }
      else found)

  -- The checks behind the loop: a target that is missing, or nothing discovered.
  check_found : Option (List String) → Found S → Result (Found S)
  unfolding has_all
  check_found none found = if found.discovered == 0 then err runtime_error else ok found
  check_found (some names) found =
      if has_all names (map lower (Dict.keys found.channels))
      then if found.discovered == 0 then err runtime_error else ok found
      else err runtime_error

  unfoldable pub discover_channels :
      List String → List (EntryPoint S) → Dict (Channel S) → Result (Dict (Channel S))
  unfolding targets load_all check_found
  discover_channels channel_names eps channels =
      load_all (targets lower channel_names) eps (record { channels = channels; discovered = 0 })
      >>=ᵣ λ found.
          check_found (targets lower channel_names) found >>=ᵣ λ checked. ok checked.channels

module _ {S : Type 0} where
  unfoldable pub get_channel : String → Dict (Channel S) → Result (Channel S)
  get_channel channel channels = elim (Dict.get channel channels) [
    | none ↦ err value_error
    | some c ↦ ok c
  ]

  unfoldable pub channel_names : Dict (Channel S) → List String
  channel_names channels = Dict.keys channels

  pub has_id : ℕ → List (Channel S) → Bool
  has_id n cs = any (λ c. c.id == n) cs

  -- {id(channel): channel ...}.values(): one entry for each id, at the place of the first
  unique_from : List (Channel S) → Dict (Channel S) → List (Channel S)
  unfolding has_id
  unique_from seen [] = []
  unique_from seen ((k, c) ∷ d) =
      let rest = unique_from (c ∷ seen) d in
      if has_id c.id seen then unique_from seen d else c ∷ rest

  -- The channels that on_startup, on_shutdown and on_prefork go through.
  unfoldable pub unique_channels : Dict (Channel S) → List (Channel S)
  unfolding unique_from
  unique_channels channels = unique_from [] channels
