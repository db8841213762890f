-- ===== src/Examples/Chats.antt =====
-- The theorems on the connection of the SimpleX channel.
use delta_gateway_chat_woot.Base.{
  pos, decimal, String, trim, true, [], ◌∷◌, none, some, All, if◌then◌else◌, ◌≡◌, refl,
}
use delta_gateway_chat_woot.Base.Dict
use delta_gateway_chat_woot.Errors.{ok}
use delta_gateway_chat_woot.Values.{Value, int, str, dict_of, find, get_value, get_default}
use delta_gateway_chat_woot.Simplex.Messages.{has_item, in_set, unwrap, message_of, normalize}
use delta_gateway_chat_woot.Simplex.Messages.Forwarded.{
  ChatItem, entry_of, is_forwarded, normalize-forwards,
}
use delta_gateway_chat_woot.Simplex.Connection.{
  new_connection, outcome, complete, drop_key, dispatch, connect,
}
use delta_gateway_chat_woot.Simplex.Connection.Commands.{begin_command}
use delta_gateway_chat_woot.Simplex.Connection.Steps.{
  System, new_system, opened, sent, answered, returns, Reach, here, next,
}
use delta_gateway_chat_woot.Simplex.Connection.Replies.{Reach-returns_correlated}

abbrev cli_answer : String → Value
cli_answer k = dict_of (("type", str "newChatItems") ∷ ("to", str k) ∷ [])

abbrev reply : Value
reply = dict_of (("corrId", str "1") ∷ ("resp", cli_answer "1") ∷ [])

abbrev connected : System
connected = record new_system { connection = record new_connection { connected = true } }

abbrev waits : System
waits = record connected {
  connection = record new_connection { connected = true; corr_id = 1; pending = ("1", 1) ∷ [] };
  waiting = 1 ∷ [];
}

abbrev replied : System
replied = record waits {
  connection = record new_connection {
    connected = true;
    corr_id = 1;
    futures = (1, ok (cli_answer "1")) ∷ [];
  };
}

abbrev finished : System
finished = record replied { waiting = []; returned = (1, cli_answer "1") ∷ [] }

run : Reach cli_answer new_system finished
unfolding connect begin_command dispatch complete drop_key outcome get_value get_default find unwrap
    has_item in_set Dict.put Dict.get decimal
run =
    let r1 : Reach cli_answer new_system connected = next here (opened refl) in
    let r2 : Reach cli_answer new_system waits = next r1 (sent refl) in
    let r3 : Reach cli_answer new_system replied = next r2 (answered reply "1" refl refl) in
    next r3 (returns 1 [] [] (cli_answer "1") (cli_answer "1") refl refl refl)

Reach-returns_correlated_example :
    All (λ e. unwrap (cli_answer (decimal e.0)) ≡ ok e.1) finished.returned
Reach-returns_correlated_example = Reach-returns_correlated cli_answer finished run

abbrev greeting : ChatItem
greeting = record {
  chat_type = "direct";
  contact_id = pos 4;
  display_name = "ann";
  direction = "directRcv";
  content_type = "text";
  text = " hello ";
  item_id = pos 9;
}

normalize-forwards_example :
    normalize (entry_of greeting)
    ≡ ok (
        if is_forwarded greeting
        then some (message_of (int (pos 4)) (str "ann") (int (pos 9)) (trim " hello "))
        else none)
normalize-forwards_example = normalize-forwards greeting
