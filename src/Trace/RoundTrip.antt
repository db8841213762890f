-- ===== src/Trace/RoundTrip.antt =====
-- The trace context of infrastructure/telemetry/propagation.py, there and back.
use delta_gateway_chat_woot.Base.{String, [], ◌∷◌, none, ◌≡◌, refl, ap}
use delta_gateway_chat_woot.Base.Dict.{Dict}
use delta_gateway_chat_woot.Values.{Members, obj_of, find}
use delta_gateway_chat_woot.Values.Fields.{find-set_self, remove-set, remove-none}
use delta_gateway_chat_woot.Trace.{
  trace_context_key, texts, normalized, non_empty, carrier_of, inject_trace_context,
  extract_trace_context,
}

normalized-texts : (d : Dict String) → normalized (obj_of (texts d)) ≡ d
unfolding normalized texts
normalized-texts [] = refl
normalized-texts ((k, v) ∷ d) = ap (λ e. (k, v) ∷ e) (normalized-texts d)

-- A payload that does not hold the reserved key comes back unchanged behind `extract`, and so does
-- the carrier, or none where nothing was injected.
pub extract-inject :
    (carrier : Dict String) (payload : Members)
    → find trace_context_key payload ≡ none
    → extract_trace_context (inject_trace_context carrier payload) ≡ (non_empty carrier, payload)
unfolding extract_trace_context inject_trace_context non_empty
extract-inject [] payload h = λ i. (carrier_of (h i), remove-none trace_context_key payload h i)
extract-inject (e ∷ d) payload h =
    rw (find-set_self, remove-set _ _ _ h, normalized-texts (e ∷ d)) refl
