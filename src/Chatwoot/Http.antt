-- ===== src/Chatwoot/Http.antt =====
-- infrastructure/chatwoot_client/cw_client.py: one exchange with the server, and its errors.
use delta_gateway_chat_woot.Base.{
  ℕ, ℤ, pos, String, str_eq, List, Option, none, some, parse_int, max_one, leb, ◌==◌, if◌then◌else◌,
}
use delta_gateway_chat_woot.Errors.{
  Exc, content_type_error, fatal_error, transient_default, transient_after, is_network_error,
  Result, ok, err,
}
use delta_gateway_chat_woot.Exec.{Exec, ◌>>=◌, ◌>>◌, pure, lift, attempt}
use delta_gateway_chat_woot.Values.{Value}

-- what a request carries; `form` is the multipart upload of `_upload_bytes`
pub data Body (B : Type 0) : Type 0 where
  no_body : Body B
  json : Value → Body B
  form : (content : B) → (filename content_type : String) → Body B

pub record Request (B : Type 0) : Type 0 where
  pub method : String
  pub url : String
  pub params : List (String × String)
  pub body : Body B

-- What the client reads of a response. `json` is what `resp.json()` returns or raises, and `text`
-- what `resp.text()` does.
pub record Reply : Type 0 where
  pub status : ℕ
  pub retry_after : Option String
  pub json : Result Value
  pub text : Result String

-- int(retry_after), where a ValueError falls back to 60
abbrev pub parsed_delay : Option ℤ → ℤ
parsed_delay none = pos 60
parsed_delay (some z) = max_one z

unfoldable pub get_retry_delay_seconds : Option String → ℤ
get_retry_delay_seconds none = pos 60
get_retry_delay_seconds (some s) = if str_eq s "" then pos 60 else parsed_delay (parse_int s)

-- except ContentTypeError: the text is read for the log, and FatalError raised
json_error : Result String → Exc → Result Value
json_error (ok s) content_type_error = err fatal_error
json_error (err e) content_type_error = err e
json_error _ e = err e

unfoldable pub parse_json : Reply → Result Value
unfolding json_error
parse_json r = elim r.json [ ok v ↦ ok v | err e ↦ json_error r.text e ]

unfoldable pub handle_response_errors : Reply → Result (Unit {0})
handle_response_errors r =
    if leb 500 r.status
    then err transient_default
    else if r.status == 429
    then err (transient_after (get_retry_delay_seconds r.retry_after))
    else if leb 400 r.status
    then err fatal_error
    else ok tt

-- except (ClientError, TimeoutError): raise TransientError
unfoldable pub translate : {A : Type 0} → Exc → Result A
translate e = if is_network_error e then err transient_default else err e

module _ {S B : Type 0} (http : Request B → Exec S Reply) where
  -- `_request`, and the same block of `_upload_bytes`
  unfoldable pub exchange : Request B → Exec S Value
  exchange r =
      attempt
        (do
          reply ← http r
          content ← lift (parse_json reply)
          lift (handle_response_errors reply)
          pure content)
        (λ e. lift (translate e))

  -- An exchange, and what is read of the answer.
  unfoldable pub ask : {A : Type 0} → Request B → (Value → Result A) → Exec S A
  ask r answer = do content ← exchange r; lift (answer content)
