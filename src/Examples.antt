-- ===== src/Examples.antt =====
-- Sample data: a database, a queue that is the log of its calls, messages, and a Telegram
-- configuration, at which the children evaluate the theorems.
mod Storage
mod Workers
mod Hooks
mod Clients
mod Bots
mod BotRuns
mod DeltaChats
mod DeltaReplies
mod DeltaRuns
mod DeltaSends
mod Bridges
mod Chats
use package.text.Mathlib.TextLemmas.{length-append}
use delta_gateway_chat_woot.Base.{
  ℕ, zero, suc, ◌+◌, ℤ, pos, String, append, count, decimal, Bool, true, false, List, [], ◌∷◌, ◌++◌,
  Option, none, some, ◌≡◌, refl, sym, ap, ◌∙◌, arith,
}
use delta_gateway_chat_woot.Base.Dict.{Dict}
use delta_gateway_chat_woot.Errors.{Exc, Result, ok, err, value_error}
use delta_gateway_chat_woot.Exec.{Exec, pure}
use delta_gateway_chat_woot.Models.{Envelope, SenderInfo, ChannelDeliveryResult, text}
use delta_gateway_chat_woot.Values.{Value, null, str, int, obj, obj_of, dict_of, end, Members}
use delta_gateway_chat_woot.Values.Text.{text_of}
use delta_gateway_chat_woot.World.{World, IdentityRow, AliasRow}
use delta_gateway_chat_woot.Queue.{Row, Pgmq, Json}
use delta_gateway_chat_woot.Registry.{Channel}

abbrev pub Log : Type 0
Log = List String

abbrev pub pgmq : Pgmq Log
pgmq = record {
  send = λ queue_name content log. log ++ append "send " content ∷ [];
  read = λ queue_name vt limit log. ([], log);
  delete = λ queue_name i log. log ++ append "delete " (decimal i) ∷ [];
  archive = λ queue_name i log. log ++ append "archive " (decimal i) ∷ [];
  set_vt = λ queue_name i vt log. log ++ append "vt " (decimal vt) ∷ [];
}

abbrev pub json : Json
json = record { dumps = text_of; loads = λ s. err value_error }

-- a database that answers, over a pool
abbrev pub calm : World Log
calm = record {
  pool = true;
  faults = [];
  now = 7;
  uuids = 0;
  processed_keys = "old" ∷ [];
  identity_mappings = [];
  contact_aliases = [];
  queue = [];
  event = false;
  listeners = [];
}

abbrev pub ann : SenderInfo
ann = record {
  external_id = text "42";
  raw_external_id = none;
  name = some "Ann";
  nickname = some "annie";
}

abbrev pub letter : Envelope
letter = record {
  idem_key = "key";
  channel = "telegram";
  from = "telegram";
  to = "chatwoot";
  connector_id = "bot";
  cw_inbox_id = "5";
  message_id = "1";
  cw_account_id = "3";
  sender = ann;
  payload = obj_of (("text", str "hello") ∷ []);
  ts = 0;
}

-- different texts for different numbers
abbrev pub unary : ℕ → String
unary zero = ""
unary (suc n) = append "u" (unary n)

count-unary : (n : ℕ) → count (unary n) ≡ n
count-unary zero = refl
count-unary (suc n) = omega (arith, length-append "u" (unary n), count-unary n)

pub unary-inj : (i j : ℕ) → unary i ≡ unary j → i ≡ j
unary-inj i j e = sym (count-unary i) ∙ ap count e ∙ count-unary j

-- twelve characters
abbrev pub twelve_zeros : String → String
twelve_zeros s = "000000000000"

abbrev pub sample_channel : (Value → Exec (World Log) ChannelDeliveryResult) → Channel (World Log)
sample_channel send = record {
  id = 1;
  channel = "telegram";
  send_to_user = send;
  build_channel_message = λ v. pure ("key", letter);
  publish_channel_message = λ key e v. pure tt;
  publish_chatwoot_message = λ v account. pure tt;
}

abbrev pub delivers : Value → Exec (World Log) ChannelDeliveryResult
delivers v = pure (record { delivered = true; external_id = none })
