-- ===== src/Examples/DeltaRuns.antt =====
-- The theorems on the client of the Delta Chat core.
use delta_gateway_chat_woot.Base.{
  ℕ, ◌+◌, String, append, lower, trim, Bool, true, false, [], ◌∷◌, ◌++◌, ◌≡◌, refl, arith,
}
use delta_gateway_chat_woot.Base.Dict
use delta_gateway_chat_woot.Errors.{Result, ok, value_error}
use delta_gateway_chat_woot.Exec.{Exec, pure, raise}
use delta_gateway_chat_woot.Values.{Value, null, str, dict_of}
use delta_gateway_chat_woot.DeltaChat.Routing.{new_routing}
use delta_gateway_chat_woot.DeltaChat.Client.{
  Core, RuntimeAccount, Settings, Client, new_client, on_core, start_event_threads,
  start_event_thread, register_account,
}
use delta_gateway_chat_woot.DeltaChat.Client.Accounts.{
  start, launch, bring_up, sync_accounts, require_started, provision, accounts_by, sync_each,
  sync_account, reusable, choose_account, bootstrap_account, account_for, install, set_up,
  runtime_account, refresh_account_metadata, go_online, stop, shut_down, end_io, end_rpc, cleared,
}
use delta_gateway_chat_woot.DeltaChat.Client.Credentials.{resolve_bootstrap_config}
use delta_gateway_chat_woot.DeltaChat.Client.Restart.{start-stop_deaf}
use delta_gateway_chat_woot.DeltaChat.Client.Download.{
  Waiting, IsClocked, ended, wait_for_full_message, wait_for_full_message-ends,
}
use delta_gateway_chat_woot.DeltaChat.Client.Events.{EventCore, turn}
use delta_gateway_chat_woot.DeltaChat.Client.Events.Turns.{turn-returns}
use delta_gateway_chat_woot.Examples.{Log}
use delta_gateway_chat_woot.Examples.DeltaChats.{accounts, no_files}

-- a core that writes a log, and has no account before the first start
abbrev says : String → Exec Log (Unit {0})
says s log = (ok tt, log ++ s ∷ [])

abbrev core : Core Log
core = record {
  start = says "start";
  close = says "close";
  start_io = says "start_io";
  stop_io = says "stop_io";
  get_all_accounts = pure [];
  add_account = pure 1;
  get_config = λ i key. pure null;
  set_config = λ i key value. says key;
  set_avatar = λ i path. says path;
  is_configured = λ i. pure true;
  add_or_update_transport = λ i address password. says address;
  get_qr_code_svg = λ i. pure "<svg/>";
  post = λ url. raise value_error;
}

abbrev settings : Settings
settings = record {
  enable_native_deltachat_channel = true;
  deltachat_accounts_dir = "/data";
  delta_chat_accounts = accounts;
  download_timeout_ms = 1000;
}

abbrev client : Client Log
client = new_client (new_routing accounts) []

started : (start core settings append client).0 ≡ ok tt
unfolding start launch bring_up sync_accounts require_started provision accounts_by sync_each
    sync_account reusable choose_account bootstrap_account resolve_bootstrap_config account_for
    install set_up refresh_account_metadata on_core go_online Dict.get lower trim
started = refl

stopped : (stop core settings append (start core settings append client).1).0 ≡ ok tt
unfolding stop shut_down end_io end_rpc cleared start launch bring_up sync_accounts require_started
    provision accounts_by sync_each sync_account reusable choose_account bootstrap_account
    resolve_bootstrap_config account_for install set_up refresh_account_metadata on_core go_online
    Dict.get Dict.put lower trim start_event_threads start_event_thread register_account
    runtime_account
stopped = refl

start-stop_deaf_example :
    (start core settings append
      (stop core settings append (start core settings append client).1).1).1.event_threads
    ≡ []
start-stop_deaf_example = start-stop_deaf core settings append refl client refl started stopped

-- a clock, and a message whose file never comes
abbrev clock : Waiting ℕ
clock = record {
  monotonic = λ s. s;
  stop_event = λ s. false;
  get_snapshot = λ s. (ok (dict_of []), s + 10);
  sleep = λ s. s + 200;
  download_full_message = λ s. (ok tt, s + 30);
}

clock-IsClocked : IsClocked clock
clock-IsClocked = record { snapshot_later = λ s. omega arith; sleep_later = λ s. omega arith }

abbrev picture : Value
picture = dict_of (("view_type", str "Image") ∷ ("file", null) ∷ [])

wait_for_full_message-ends_example :
    (r : Result Value) × ((wait_for_full_message clock 1000 true picture 0).0 ≡ ended r)
wait_for_full_message-ends_example =
    wait_for_full_message-ends clock clock-IsClocked 1000 true picture 0

abbrev event_core : EventCore Log
event_core = record {
  stop_event = λ log. false;
  wait_for_event = pure ("IncomingMsg", 5);
  get_snapshot = λ i. raise value_error;
  full_snapshot = λ i v. pure v;
  get_sender_snapshot = λ i. raise value_error;
  get_chat_snapshot = λ i. raise value_error;
}

abbrev listener : RuntimeAccount
listener = record {
  connector_id = "dc";
  account_id = 1;
  address = "gate@example.org";
  storage_dir = "/data/dc";
}

turn-returns_example :
    (go : Bool) × ((turn event_core no_files listener (λ payload. says "handled") true []).0
      ≡ ok go)
turn-returns_example = turn-returns event_core no_files listener (λ payload. says "handled") true []
