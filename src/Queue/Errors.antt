-- ===== src/Queue/Errors.antt =====
-- What a storage operation may raise.
use delta_gateway_chat_woot.Base.{ℕ, ℤ, String, Bool, List, false, ◌≡◌, refl, sym, arith}
use delta_gateway_chat_woot.Base.Dict.{Dict}
use delta_gateway_chat_woot.Errors.{Exc, Result, ok, err}
use delta_gateway_chat_woot.Exec.{Exec, continue, ◌>>=◌}
use delta_gateway_chat_woot.Values.{Value}
use delta_gateway_chat_woot.World.{translating, is_transient_postgres_error}
use delta_gateway_chat_woot.Queue.{
  Pgmq, Json, send, read, delete, archive, set_vt, is_already_processed, mark_as_processed,
  ensure_listener, await_event, wait_for_notification,
}

-- `m` raises no transient error of PostgreSQL as it is
pub record IsTranslated {S A : Type 0} (m : Exec S A) : Type 0 where
  pub at : (s : S) (e : Exc) → (m s).0 ≡ err e → is_transient_postgres_error e ≡ false

pub translating-IsTranslated :
    {S A : Type 0} (keywords : List String) (m : Exec S A) → IsTranslated (translating keywords m)
unfolding translating
translating-IsTranslated keywords m = record { at = λ s e h. ground arith }

continue-IsTranslated :
    {S A B : Type 0} (r : Result A) (f : A → Exec S B) (s : S) (e : Exc)
    → ((x : Exc) → r ≡ err x → is_transient_postgres_error x ≡ false)
    → ((a : A) → IsTranslated (f a))
    → (continue r f s).0 ≡ err e
    → is_transient_postgres_error e ≡ false
continue-IsTranslated (ok a) f s e h k q = (k a).at s e q
continue-IsTranslated (err x) f s e h k q = let same : x ≡ e = cc q in rw (sym same) (h x refl)

bind-IsTranslated :
    {S A B : Type 0} (m : Exec S A) (f : A → Exec S B)
    → IsTranslated m
    → ((a : A) → IsTranslated (f a))
    → IsTranslated (m >>= f)
bind-IsTranslated m f h k = record {
  at = λ s e q. continue-IsTranslated (m s).0 f (m s).1 e (λ x r. h.at s x r) k q;
}

await_event-IsTranslated :
    {Q : Type 0} (arrived : Bool) → IsTranslated (await_event {Q = Q} arrived)
unfolding await_event
await_event-IsTranslated arrived = record { at = λ w e q. ground arith }

wait-IsTranslated :
    {Q : Type 0} (queue : String) (arrived : Bool)
    → IsTranslated (wait_for_notification {Q = Q} queue arrived)
unfolding wait_for_notification ensure_listener
wait-IsTranslated queue arrived =
    bind-IsTranslated (ensure_listener queue) (λ _. await_event arrived)
      (translating-IsTranslated _ _) (λ _. await_event-IsTranslated arrived)

-- Sending, reading, deleting, archiving, hiding, looking for a key, marking one, and waiting for a
-- notification: none of these eight operations of the queue raises a connection error, a timeout or
-- an interface error of the database; each has become another exception. Preparing the database and
-- closing the queue are not among them.
pub operations-IsTranslated :
    {Q : Type 0} (pg : Pgmq Q) (json : Json) (carrier : Dict String) (queue key : String)
    (payload : Value) (msg_id vt limit : ℕ) (delay : ℤ) (arrived : Bool)
    → IsTranslated (send pg json carrier queue payload)
      × IsTranslated (read pg queue vt limit)
      × IsTranslated (delete pg queue msg_id)
      × IsTranslated (archive pg queue msg_id)
      × IsTranslated (set_vt pg queue msg_id delay)
      × IsTranslated (is_already_processed {Q = Q} key)
      × IsTranslated (mark_as_processed {Q = Q} key)
      × IsTranslated (wait_for_notification {Q = Q} queue arrived)
unfolding send read delete archive set_vt is_already_processed mark_as_processed
operations-IsTranslated pg json carrier queue key payload msg_id vt limit delay arrived = (
  translating-IsTranslated _ _,
  translating-IsTranslated _ _,
  translating-IsTranslated _ _,
  translating-IsTranslated _ _,
  translating-IsTranslated _ _,
  translating-IsTranslated _ _,
  translating-IsTranslated _ _,
  wait-IsTranslated queue arrived,
)
