-- ===== src/Trace.antt =====
-- infrastructure/telemetry/propagation.py: the trace context that travels inside a message. What
-- OpenTelemetry writes into the carrier is a parameter.
pub mod RoundTrip
use delta_gateway_chat_woot.Base.{
  String, List, [], ◌∷◌, Option, none, some, is_empty, if◌then◌else◌,
}
use delta_gateway_chat_woot.Base.Dict.{Dict}
use delta_gateway_chat_woot.Values.{
  Value, null, bool, int, str, arr, obj, Members, end, member, find, set, remove, dict_of,
}
use delta_gateway_chat_woot.Values.Text.{text_of}

abbrev pub trace_context_key : String
trace_context_key = "_otel_trace_context"

texts : Dict String → Dict Value
texts [] = []
texts ((k, v) ∷ d) = (k, str v) ∷ texts d

-- `carrier` is what propagate.inject wrote.
unfoldable pub inject_trace_context : Dict String → Members → Members
unfolding texts
inject_trace_context carrier payload =
    if is_empty carrier then payload else set trace_context_key (dict_of (texts carrier)) payload

normalized : Members → Dict String
normalized end = []
normalized (member k null d) = normalized d
normalized (member k (bool b) d) = (k, text_of (bool b)) ∷ normalized d
normalized (member k (int z) d) = (k, text_of (int z)) ∷ normalized d
normalized (member k (str s) d) = (k, s) ∷ normalized d
normalized (member k (arr vs) d) = (k, text_of (arr vs)) ∷ normalized d
normalized (member k (obj m) d) = (k, text_of (obj m)) ∷ normalized d

pub non_empty : Dict String → Option (Dict String)
non_empty [] = none
non_empty (e ∷ d) = some (e ∷ d)

pub carrier_of : Option Value → Option (Dict String)
carrier_of (some (obj m)) = non_empty (normalized m)
carrier_of _ = none

-- The carrier for propagate.extract, if there is one, and the payload without it.
unfoldable pub extract_trace_context : Members → Option (Dict String) × Members
unfolding carrier_of normalized non_empty
extract_trace_context payload =
    (carrier_of (find trace_context_key payload), remove trace_context_key payload)
