-- ===== src/Simplex/Connection.antt =====
-- channels/simplex_channel/sx_bot_manager.py: one connection to the CLI. A future is the number that
-- its command has; `futures` has those that are done.
pub mod Commands
pub mod Steps
pub mod Correlated
pub mod Replies
use delta_gateway_chat_woot.Base.{
  ℕ, suc, ◌==◌, decimal, String, str_eq, Bool, true, false, List, [], ◌∷◌, ◌++◌, Option, none, some,
  any, if◌then◌else◌,
}
use delta_gateway_chat_woot.Base.Dict
use delta_gateway_chat_woot.Base.Dict.{Dict}
use delta_gateway_chat_woot.Errors.{
  Exc, simplex_error, client_error, client_connector_error, server_disconnected_error,
  connection_error, value_error, type_error, Result, ok, err,
}
use delta_gateway_chat_woot.Exec.{
  Exec, ◌>>=◌, ◌>>◌, pure, raise, lift, gets, attempt, modify, for_each,
}
use delta_gateway_chat_woot.Values.{
  Value, null, str, arr, obj, nil, end, Members, get_value, get_default, equals, iterate,
}
use delta_gateway_chat_woot.Simplex.Messages.{in_set, unwrap, unwrap_event, normalize}

pub record Connection : Type 0 where
  pub connected : Bool
  pub stopping : Bool
  pub corr_id : ℕ
  pub pending : Dict ℕ
  pub futures : List (ℕ × Result Value)
  -- the futures that were cancelled
  pub cancelled : List ℕ
  pub inbound : List Value

abbrev pub new_connection : Connection
new_connection = record {
  connected = false;
  stopping = false;
  corr_id = 0;
  pending = [];
  futures = [];
  cancelled = [];
  inbound = [];
}

-- What a future has, if it is done.
unfoldable pub outcome : ℕ → List (ℕ × Result Value) → Option (Result Value)
outcome f [] = none
outcome f ((g, r) ∷ done) = if g == f then some r else outcome f done

unfoldable pub complete : ℕ → Result Value → Connection → Connection
complete f r c = if any (λ g. g == f) c.cancelled then c else elim (outcome f c.futures) [
  | none ↦ record c { futures = (f, r) ∷ c.futures }
  | some q ↦ c
]

-- future.cancel(), which changes nothing of one that is done
unfoldable pub cancel : ℕ → Connection → Connection
cancel f c = elim (outcome f c.futures) [
  | none ↦ record c { cancelled = f ∷ c.cancelled }
  | some q ↦ c
]

-- d.pop(k, None) without the value
unfoldable pub drop_key : String → Dict ℕ → Dict ℕ
drop_key k [] = []
drop_key k ((j, f) ∷ d) = if str_eq j k then d else (j, f) ∷ drop_key k d

-- The future for the corrId of a message: an id that is no text is not there, or has no hash.
pub future_of : Value → Dict ℕ → Result (Option ℕ)
future_of (str k) d = ok (Dict.get k d)
future_of (arr vs) d = err type_error
future_of (obj m) d = err type_error
future_of v d = ok none

unfoldable pub emit_message : Value → Exec Connection (Unit {0})
emit_message entry = do
  message ← lift (normalize entry)
  elim message [
    | none ↦ pure tt
    | some m ↦ modify (λ c. record c { inbound = c.inbound ++ m ∷ [] })
  ]

unfoldable pub handle_event : Value → Exec Connection (Unit {0})
handle_event payload = do
  type ← lift (get_value "type" payload)
  if equals type "newChatItems"
      then (do
        given ← lift (get_default "chatItems" (arr nil) payload)
        entries ← lift (iterate given)
        for_each entries emit_message)
      else if equals type "newChatItem"
      then (do entry ← lift (get_default "chatItem" (obj end) payload); emit_message entry)
      else (do
        known ←
            lift
              (in_set ("contactConnected" ∷ "contactRequest" ∷ "acceptingContactRequest" ∷ []) type)
        pure tt)

-- The message for a future that is there, or an event.
pub resolve : Value → Value → Option ℕ → Exec Connection (Unit {0})
resolve corr_id resp none = do event ← lift (unwrap_event resp); handle_event event
resolve (str k) resp (some f) =
    modify (λ c. complete f (ok resp) (record c { pending = drop_key k c.pending }))
resolve v resp (some f) = pure tt

unfoldable pub dispatch : Value → Exec Connection (Unit {0})
unfolding future_of resolve
dispatch m = do
  corr_id ← lift (get_value "corrId" m)
  resp ← lift (get_default "resp" (obj end) m)
  d ← gets (λ c. c.pending)
  future ← lift (future_of corr_id d)
  resolve corr_id resp future

-- A message of the websocket.
pub data WsMessage : Type 0 where
  text : String → WsMessage
  closed error other : WsMessage

-- `_read_loop` up to the end of the stream; `loads` is json.loads.
handle_text : (String → Result Value) → String → Exec Connection (Unit {0})
handle_text loads s = elim (loads s) [
  | ok m ↦ dispatch m
  | err value_error ↦ pure tt
  | err e ↦ raise e
]

unfoldable pub read_loop : (String → Result Value) → List WsMessage → Exec Connection (Unit {0})
unfolding handle_text
read_loop loads [] = pure tt
read_loop loads (text s ∷ ms) = handle_text loads s >> read_loop loads ms
read_loop loads (closed ∷ ms) = pure tt
read_loop loads (error ∷ ms) = pure tt
read_loop loads (other ∷ ms) = read_loop loads ms

pub fail_all : Dict ℕ → Connection → Connection
fail_all [] c = record c { pending = [] }
fail_all ((k, f) ∷ d) c = fail_all d (complete f (err (simplex_error true)) c)

unfoldable pub fail_pending : Connection → Connection
unfolding fail_all
fail_pending c = fail_all c.pending c

-- `_run`: the connection is open, and the `finally` of the same turn.
unfoldable pub connect : Connection → Connection
connect c = record c { connected = true }

unfoldable pub connection_lost : Connection → Connection
unfolding fail_pending
connection_lost c = fail_pending (record c { connected = false })
