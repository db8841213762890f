-- ===== src/Webhooks/Answers.antt =====
-- What the sender of a webhook is answered.
use delta_gateway_chat_woot.Base.{Option, none, some, ◌≡◌, refl}
use delta_gateway_chat_woot.Errors.{
  connector_not_found_error, wrong_update_type_error, idempotency_key_already_processed_error,
  transient_error, http_exception, Result, ok, err,
}
use delta_gateway_chat_woot.Exec.{Exec}
use delta_gateway_chat_woot.Webhooks.{Response, handle_exceptions, answering}

-- The answer, or the exception, for what the handling of a webhook returned or raised.
abbrev pub answer : Result (Unit {0}) → Result (Option Response)
answer (ok u) = ok none
answer (err connector_not_found_error) = err (http_exception 404)
answer (err wrong_update_type_error) = err (http_exception 204)
answer (err idempotency_key_already_processed_error) =
    ok (some (record { status_code = 200; retry_after = none }))
answer (err (transient_error limit delay)) =
    ok (some (record { status_code = 503; retry_after = some delay }))
answer (err e) = err e

answer_at :
    {S : Type 0} (r : Result (Unit {0})) (s : S) → answering (λ (t : S). (r, t)) s ≡ (answer r, s)
unfolding answering handle_exceptions
answer_at (ok u) s = refl
answer_at (err wrong_update_type_error) s = refl
answer_at (err e) s = refl

-- Handling is answered by its outcome alone, and what it has written stays written: a repeated
-- message is a success, an unknown connector a 404, a temporary failure a 503 that says when to
-- come back, and any other exception is raised unchanged.
pub answering_lem :
    {S : Type 0} (m : Exec S (Unit {0})) (s : S) → answering m s ≡ (answer (m s).0, (m s).1)
unfolding answering
answering_lem m s = answer_at (m s).0 (m s).1
