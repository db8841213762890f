-- ===== src/Simplex/Connection/Replies.antt =====
-- Every reply comes back to the command that has its corrId.
use delta_gateway_chat_woot.Base.{
  ℕ, suc, decimal, String, true, false, none, some, All, Option-cases, inl, inr, ◌≡◌, sym, ap,
}
use delta_gateway_chat_woot.Base.Dict
use delta_gateway_chat_woot.Errors.{ok}
use delta_gateway_chat_woot.Values.{Value, str, obj, end, get_value, get_default}
use delta_gateway_chat_woot.Simplex.Messages.{unwrap}
use delta_gateway_chat_woot.Simplex.Connection.{
  Connection, outcome, cancel, drop_key, future_of, resolve, dispatch, fail_pending, connect,
  connection_lost,
}
use delta_gateway_chat_woot.Simplex.Connection.Commands.{begin_command, await_reply, forget}
use delta_gateway_chat_woot.Simplex.Connection.Steps.{
  System, new_system, Step, opened, sent, unsent, answered, told, returns, raises, gives_up,
  cancelled, lost, Reach, here, next,
}
use delta_gateway_chat_woot.Simplex.Connection.Correlated.{
  resolve-none-Keeps, dispatch_lem, told-Keeps, put-Paired, drop_key-Paired, get-Paired, IsSound,
  outcome-own, complete-IsOwn, fail_all-IsOwn, complete-pending, fail_all-pending, Keeps-IsSound,
}

module _ (answer : String → Value) where
  begin_command-IsSound :
      (c : Connection) → c.connected ≡ true → IsSound answer c → IsSound answer (begin_command c).1
  unfolding begin_command
  begin_command-IsSound c on h = rw on (put-Paired (suc c.corr_id) c.pending h.0, h.1)

  forget-IsSound : (f : ℕ) (c : Connection) → IsSound answer c → IsSound answer (forget f c).1
  unfolding forget
  forget-IsSound f c h = (drop_key-Paired (decimal f) c.pending h.0, h.1)

  await_reply-IsSound :
      (f : ℕ) (c : Connection)
      → outcome f c.futures ≡ none
      → IsSound answer c
      → IsSound answer (await_reply f c).1
  unfolding await_reply
  await_reply-IsSound f c e h = rw (e, await_reply) (drop_key-Paired (decimal f) c.pending h.0, h.1)

  answered-IsSound :
      (m : Value) (k : String) (c : Connection)
      → get_value "corrId" m ≡ ok (str k)
      → get_default "resp" (obj end) m ≡ ok (answer k)
      → IsSound answer c
      → IsSound answer (dispatch m c).1
  unfolding future_of resolve
  answered-IsSound m k c i r h = elim (Option-cases (Dict.get k c.pending)) [
    | inl unknown ↦ rw (dispatch_lem m (str k) (answer k) none c i r (ap ok unknown)) (
        Keeps-IsSound answer (resolve (str k) (answer k) none) c
          (resolve-none-Keeps (str k) (answer k)) h)
    | inr (f, known) ↦ rw (dispatch_lem m (str k) (answer k) (some f) c i r (ap ok known)) (
      rw (complete-pending answer f (ok (answer k)) (record c { pending = drop_key k c.pending }))
          (drop_key-Paired k c.pending h.0),
      complete-IsOwn answer f (ok (answer k)) (record c { pending = drop_key k c.pending })
          (λ v e. let key = get-Paired k f c.pending h.0 known in cc (e, key)) h.1,
    )
  ]

  cancel-IsSound : (f : ℕ) (c : Connection) → IsSound answer c → IsSound answer (cancel f c)
  unfolding cancel
  cancel-IsSound f c h = elim (Option-cases (outcome f c.futures)) [
    | inl open_yet ↦ rw (open_yet, cancel) h
    | inr (q, done) ↦ rw (done, cancel) h
  ]

  record IsCorrelated (s : System) : Type 0 where
    sound : IsSound answer s.connection
    delivered : All (λ e. unwrap (answer (decimal e.0)) ≡ ok e.1) s.returned

  Step-IsCorrelated : {s t : System} → Step answer s t → IsCorrelated s → IsCorrelated t
  unfolding connect connection_lost fail_pending
  Step-IsCorrelated (opened off) h = record { sound = h.sound; delivered = h.delivered }
  Step-IsCorrelated {s} (sent on) h = record {
    sound = begin_command-IsSound s.connection on h.sound;
    delivered = h.delivered;
  }
  Step-IsCorrelated {s} (unsent n before after w) h = record {
    sound = forget-IsSound n s.connection h.sound;
    delivered = h.delivered;
  }
  Step-IsCorrelated {s} (answered m k i r) h = record {
    sound = answered-IsSound m k s.connection i r h.sound;
    delivered = h.delivered;
  }
  Step-IsCorrelated {s} (told m i) h = record {
    sound = Keeps-IsSound answer (dispatch m) s.connection (told-Keeps m i) h.sound;
    delivered = h.delivered;
  }
  Step-IsCorrelated {s} (returns n before after resp v w e u) h = record {
    sound = h.sound;
    delivered = (
      let own : resp ≡ answer (decimal n) =
            outcome-own answer n s.connection.futures resp h.sound.1 e in
          rw (sym own) u,
      h.delivered,
    );
  }
  Step-IsCorrelated (raises n before after w) h = record {
    sound = h.sound;
    delivered = h.delivered;
  }
  Step-IsCorrelated {s} (gives_up n before after w e) h = record {
    sound = await_reply-IsSound n s.connection e h.sound;
    delivered = h.delivered;
  }
  Step-IsCorrelated {s} (cancelled n before after w) h = record {
    sound = cancel-IsSound n s.connection h.sound;
    delivered = h.delivered;
  }
  Step-IsCorrelated {s} lost h = record {
    sound = (
      rw (fail_all-pending answer s.connection.pending (record s.connection { connected = false }))
          tt,
      fail_all-IsOwn answer s.connection.pending _ h.sound.1,
    );
    delivered = h.delivered;
  }

  Reach-IsCorrelated : {s t : System} → Reach answer s t → IsCorrelated s → IsCorrelated t
  Reach-IsCorrelated here h = h
  Reach-IsCorrelated (next r st) h = Step-IsCorrelated st (Reach-IsCorrelated r h)

-- Where the CLI's message with the corrId `k` has the response `answer k`, and all its others have no
-- corrId: in every interleaving, with commands that overlap, time out, are cancelled or not sent, and
-- connections that are lost, a command that has returned has the payload of the response to its own
-- corrId.
pub Reach-returns_correlated :
    (answer : String → Value) (t : System)
    → Reach answer new_system t
    → All (λ e. unwrap (answer (decimal e.0)) ≡ ok e.1) t.returned
Reach-returns_correlated answer t r =
    (Reach-IsCorrelated answer r (record { sound = (tt, tt); delivered = tt })).delivered
