-- ===== src/Examples/Bridges.antt =====
-- The theorems on the connections of the Signal and the SimpleX channel.
use delta_gateway_chat_woot.Base.{ℕ, pos, true, [], ◌∷◌, none, some, All, ◌≡◌, refl}
use delta_gateway_chat_woot.Errors.{ok}
use delta_gateway_chat_woot.Values.{Value, int, str, dict_of, find, get_value, get_default}
use delta_gateway_chat_woot.Signal.Bridge.{
  new_bridge, outcome, complete, resolve_pending, handle_event, begin_send,
}
use delta_gateway_chat_woot.Signal.Bridge.Steps.{
  System, new_system, sent, answered, returns, Reach, here, next,
}
use delta_gateway_chat_woot.Signal.Bridge.Order.{IsFresh, Reach-returns_own}
use delta_gateway_chat_woot.Signal.Bridge.Stale.{late_answer-misdirected}

abbrev daemon_answer : ℕ → Value
daemon_answer n = dict_of (("type", str "send_result") ∷ ("id", int (pos n)) ∷ [])

is_send_result : (n : ℕ) → get_value "type" (daemon_answer n) ≡ ok (str "send_result")
unfolding get_value get_default find
is_send_result n = refl

abbrev opened_system : System
opened_system = record new_system { bridge = record new_bridge { connected = true } }

opened_system-IsFresh : IsFresh opened_system
opened_system-IsFresh = record {
  connected = refl;
  idle = refl;
  nothing_pending = refl;
  nothing_unanswered = refl;
  nothing_returned = refl;
  numbered = tt;
  cancelled_before = tt;
}

abbrev written : System
written = record opened_system {
  bridge = record new_bridge { connected = true; pending = 0 ∷ [] };
  next_id = 1;
  holder = some 0;
  unanswered = 0 ∷ [];
}

abbrev read : System
read = record written {
  bridge = record new_bridge { connected = true; futures = (0, ok (daemon_answer 0)) ∷ [] };
  unanswered = [];
}

abbrev returned : System
returned = record read { holder = none; returned = (0, daemon_answer 0) ∷ [] }

run : Reach daemon_answer opened_system returned
unfolding begin_send handle_event resolve_pending complete outcome get_value get_default find
run =
    let r1 : Reach daemon_answer opened_system written = next here (sent refl refl) in
    let r2 : Reach daemon_answer opened_system read = next r1 (answered 0 [] refl refl) in
    next r2 (returns 0 (daemon_answer 0) refl refl)

Reach-returns_own_example : All (λ e. e.1 ≡ daemon_answer e.0) returned.returned
Reach-returns_own_example =
    Reach-returns_own daemon_answer is_send_result opened_system returned opened_system-IsFresh run
      refl

late_answer-misdirected_example :
    (t : System) × Reach daemon_answer opened_system t
    × (t.returned ≡ (1, daemon_answer 0) ∷ [])
    × (t.unanswered ≡ 1 ∷ [])
late_answer-misdirected_example =
    late_answer-misdirected daemon_answer is_send_result opened_system opened_system-IsFresh
