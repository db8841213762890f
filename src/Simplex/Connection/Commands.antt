-- ===== src/Simplex/Connection/Commands.antt =====
-- channels/simplex_channel/sx_bot_manager.py: the commands of a connection.
use delta_gateway_chat_woot.Base.{
  ℕ, suc, decimal, String, append, [], ◌∷◌, none, some, true, false, if◌then◌else◌,
}
use delta_gateway_chat_woot.Base.Dict
use delta_gateway_chat_woot.Errors.{
  Exc, simplex_error, client_error, content_type_error, client_connector_error,
  server_disconnected_error, connection_error, Result, ok, err,
}
use delta_gateway_chat_woot.Exec.{Exec, ◌>>=◌, ◌>>◌, pure, raise, lift, gets, attempt, modify}
use delta_gateway_chat_woot.Values.{Value, bool, str, arr, nil, cons, dict_of, get_value}
use delta_gateway_chat_woot.Simplex.Messages.{unwrap, get_in}
use delta_gateway_chat_woot.Simplex.Connection.{Connection, outcome, drop_key}

-- `send_command` up to the request; the result is the command's number.
unfoldable pub begin_command : Exec Connection ℕ
begin_command = do
  connected ← gets (λ c. c.connected)
  if connected
      then (do
        modify (λ c. record c {
          corr_id = suc c.corr_id;
          pending = Dict.put (decimal (suc c.corr_id)) (suc c.corr_id) c.pending;
        })
        gets (λ c. c.corr_id))
      else raise (simplex_error true)

-- asyncio.wait_for, its except clause, and what is read of the response
unfoldable pub await_reply : ℕ → Exec Connection Value
await_reply f c = elim (outcome f c.futures) [
  | none ↦ (err (simplex_error true), record c { pending = drop_key (decimal f) c.pending })
  | some (ok resp) ↦ (unwrap resp, c)
  | some (err e) ↦ (err e, c)
]

-- except (aiohttp.ClientError, ConnectionError)
unfoldable pub forget : ℕ → Exec Connection (Unit {0})
forget f = do
  modify (λ c. record c { pending = drop_key (decimal f) c.pending })
  raise (simplex_error true)

write_error : ℕ → Exc → Exec Connection (Unit {0})
unfolding forget
write_error f client_error = forget f
write_error f content_type_error = forget f
write_error f client_connector_error = forget f
write_error f server_disconnected_error = forget f
write_error f connection_error = forget f
write_error f e = raise e

-- The CLI and the other tasks: what sending gives, and what the events change until the future is
-- done or the time is up.
pub record Cli : Type 0 where
  pub send_json : ℕ → String → Result (Unit {0})
  pub meanwhile : ℕ → Connection → Connection

module _ (cli : Cli) (dumps : Value → String) where
  unfoldable pub send_command : String → Exec Connection Value
  unfolding write_error
  send_command command = do
    f ← begin_command
    attempt (lift (cli.send_json f command)) (write_error f)
    modify (cli.meanwhile f)
    await_reply f

  unfoldable pub send_text : String → String → Exec Connection Value
  send_text contact_id text = send_command (
      append "/_send @" (
        append contact_id (
          append " json " (
            dumps (
              arr (
                cons
                  (dict_of
                    (("msgContent", dict_of (("type", str "text") ∷ ("text", str text) ∷ [])) ∷ []))
                  nil))))))

  -- except SimplexError
  quietly : Exc → Exec Connection (Unit {0})
  quietly (simplex_error transient) = pure tt
  quietly e = raise e

  unfoldable pub setup_address : String → Exec Connection (Unit {0})
  unfolding quietly
  setup_address user_id = do
    attempt (do send_command (append "/_address " user_id); pure tt) quietly
    attempt
        (do
          send_command (
              append "/_address_settings " (
                append user_id (
                  append " " (
                    dumps (
                      dict_of (
                        ("businessAddress", bool false)
                        ∷ ("autoAccept", dict_of (("acceptIncognito", bool false) ∷ []))
                        ∷ []))))))
          address ← send_command (append "/_show_address " user_id)
          contact_link ← lift (get_value "contactLink" address)
          found ← lift (get_in "connLinkContact" contact_link)
          short ← lift (get_in "connShortLink" found)
          full ← lift (get_in "connFullLink" found)
          pure tt)
        quietly
