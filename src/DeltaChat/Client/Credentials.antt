-- ===== src/DeltaChat/Client/Credentials.antt =====
-- channels/delta_chat_channel/dc_client.py: the configuration of an account whose credentials a
-- dcaccount URL gives.
use delta_gateway_chat_woot.Base.{
  String, str_eq, lower, trim, starts_with, drop_prefix, Bool, false, not, ◌||◌, List, [], ◌∷◌,
  Option, none, some, or_else, if◌then◌else◌,
}
use delta_gateway_chat_woot.Errors.{value_error, Result, ok, err, ◌>>=ᵣ◌}
use delta_gateway_chat_woot.Exec.{Exec, ◌>>=◌, pure, raise, lift}
use delta_gateway_chat_woot.Values.{Value, str, obj, truthy, get_value, is_obj}
use delta_gateway_chat_woot.Values.Text.{text_of}
use delta_gateway_chat_woot.DeltaChat.Routing.{AccountConfig}
use delta_gateway_chat_woot.DeltaChat.Client.{Core, Client, on_core}

-- bool(url) of an optional text
abbrev pub given : Option String → Bool
given none = false
given (some s) = not (str_eq s "")

-- The object that the answer holds, with its inner object `payload` in its place.
inner_payload : Value → Result Value
inner_payload (obj m) =
    get_value "payload" (obj m) >>=ᵣ λ inner. ok (if is_obj inner then inner else obj m)
inner_payload v = err value_error

-- url[len("dcaccount:"):] where that is how it starts
inner_url : String → String
inner_url url = if starts_with (lower url) "dcaccount:" then drop_prefix url "dcaccount:" else url

-- str(credentials.get(k) or ... or fallback or "")
first_given : List String → Value → String → Result String
first_given [] credentials fallback = ok fallback
first_given (k ∷ ks) credentials fallback =
    let rest = first_given ks credentials fallback in
    get_value k credentials >>=ᵣ λ v. if truthy v then ok (text_of v) else rest

some_text : String → Option String
some_text s = if str_eq s "" then none else some s

avatar_of : Value → Option String → Option String
avatar_of (str s) fallback = if str_eq (trim s) "" then fallback else some (trim s)
avatar_of v fallback = fallback

unfoldable pub config_from : AccountConfig → Value → Result AccountConfig
unfolding first_given some_text avatar_of
config_from config credentials =
    first_given ("address" ∷ "addr" ∷ "username" ∷ "email" ∷ []) credentials config.address
    >>=ᵣ λ given_address.
        first_given ("password" ∷ "pass" ∷ "mail_pw" ∷ []) credentials config.password
        >>=ᵣ λ password.
            let address = trim given_address in
            if str_eq address "" || str_eq password ""
            then err value_error
            else (first_given ("display_name" ∷ "displayname" ∷ "name" ∷ []) credentials
                  (or_else config.display_name "")
                >>=ᵣ λ display_name. get_value "avatar_path" credentials >>=ᵣ λ avatar.
                    ok (record config {
                      address = address;
                      password = password;
                      display_name = some_text (trim display_name);
                      avatar_path = avatar_of avatar config.avatar_path;
                    }))

module _ {S : Type 0} (core : Core S) where
  unfoldable pub load_dcaccount_credentials : String → Exec (Client S) Value
  unfolding inner_url inner_payload
  load_dcaccount_credentials dcaccount_url =
      let url = inner_url (trim dcaccount_url) in
      if str_eq url ""
      then raise value_error
      else (do payload ← on_core (core.post url); lift (inner_payload payload))

  unfoldable pub resolve_bootstrap_config : AccountConfig → Exec (Client S) AccountConfig
  resolve_bootstrap_config config =
      if given config.dcaccount_url
      then (do
        credentials ← load_dcaccount_credentials (or_else config.dcaccount_url "")
        lift (config_from config credentials))
      else pure config
