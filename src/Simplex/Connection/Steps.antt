-- ===== src/Simplex/Connection/Steps.antt =====
-- Commands in flight, the CLI and one connection as steps that interleave. The CLI answers the
-- commands in any order and at any time, a command with the corrId `k` by `answer k`.
use delta_gateway_chat_woot.Base.{ℕ, suc, String, true, false, List, [], ◌∷◌, ◌++◌, none, some, ◌≡◌}
use delta_gateway_chat_woot.Errors.{ok}
use delta_gateway_chat_woot.Values.{Value, null, str, obj, end, get_value, get_default}
use delta_gateway_chat_woot.Simplex.Messages.{unwrap}
use delta_gateway_chat_woot.Simplex.Connection.{
  Connection, new_connection, outcome, cancel, dispatch, connect, connection_lost,
}
use delta_gateway_chat_woot.Simplex.Connection.Commands.{begin_command, await_reply, forget}

pub record System : Type 0 where
  pub connection : Connection
  -- the commands that wait for their replies
  pub waiting : List ℕ
  -- what the commands have returned
  pub returned : List (ℕ × Value)

abbrev pub new_system : System
new_system = record { connection = new_connection; waiting = []; returned = [] }

pub data Step (answer : String → Value) (s : System) : System → Type 0 where
  opened :
      s.connection.connected ≡ false
      → Step answer s (record s { connection = connect s.connection })
  sent :
      s.connection.connected ≡ true
      → Step answer s (record s {
        connection = (begin_command s.connection).1;
        waiting = suc s.connection.corr_id ∷ s.waiting;
      })
  -- the write of a command that waits for it fails
  unsent :
      (n : ℕ) (before after : List ℕ)
      → s.waiting ≡ before ++ n ∷ after
      → Step answer s
          (record s { connection = (forget n s.connection).1; waiting = before ++ after })
  answered :
      (m : Value) (k : String)
      → get_value "corrId" m ≡ ok (str k)
      → get_default "resp" (obj end) m ≡ ok (answer k)
      → Step answer s (record s { connection = (dispatch m s.connection).1 })
  -- an event
  told :
      (m : Value)
      → get_value "corrId" m ≡ ok null
      → Step answer s (record s { connection = (dispatch m s.connection).1 })
  returns :
      (n : ℕ) (before after : List ℕ) (resp v : Value)
      → s.waiting ≡ before ++ n ∷ after
      → outcome n s.connection.futures ≡ some (ok resp)
      → unwrap resp ≡ ok v
      → Step answer s (record s { waiting = before ++ after; returned = (n, v) ∷ s.returned })
  raises :
      (n : ℕ) (before after : List ℕ)
      → s.waiting ≡ before ++ n ∷ after
      → Step answer s (record s { waiting = before ++ after })
  -- the time is up
  gives_up :
      (n : ℕ) (before after : List ℕ)
      → s.waiting ≡ before ++ n ∷ after
      → outcome n s.connection.futures ≡ none
      → Step answer s
          (record s { connection = (await_reply n s.connection).1; waiting = before ++ after })
  -- the task of the sender is cancelled, and its future with it
  cancelled :
      (n : ℕ) (before after : List ℕ)
      → s.waiting ≡ before ++ n ∷ after
      → Step answer s (record s { connection = cancel n s.connection; waiting = before ++ after })
  lost : Step answer s (record s { connection = connection_lost s.connection })

pub data Reach (answer : String → Value) (s : System) : System → Type 0 where
  here : Reach answer s s
  next : {t u : System} → Reach answer s t → Step answer t u → Reach answer s u
