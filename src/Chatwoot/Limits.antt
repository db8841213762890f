-- ===== src/Chatwoot/Limits.antt =====
-- The errors that leave the Chatwoot client, and what an exchange keeps inside.
use delta_gateway_chat_woot.Base.{false, Bool-cases, ◌≡◌, inl, inr, arith}
use delta_gateway_chat_woot.Errors.{Exc, Result, ok, err, is_network_error}
use delta_gateway_chat_woot.Exec.{Exec, resume, lift}
use delta_gateway_chat_woot.Chatwoot.Http.{Request, Reply, translate, exchange}

translate-network :
    {A : Type 0} (e e' : Exc) → translate {A = A} e ≡ err e' → is_network_error e' ≡ false
unfolding translate
translate-network e e' h = elim (Bool-cases (is_network_error e)) [
  | inl yes_network ↦ ground arith
  | inr no_network ↦ ground arith
]

resumed-translated :
    {S A : Type 0} (r : Result A) (s : S) (e : Exc)
    → (resume r (λ e'. lift (translate e')) s).0 ≡ err e
    → is_network_error e ≡ false
resumed-translated (ok a) s e h = cc h
resumed-translated (err e') s e h = translate-network e' e h

-- Whatever the server does, no network error of the HTTP library leaves an exchange: it raises
-- TransientError instead.
pub exchange-IsTranslated :
    {S B : Type 0} (http : Request B → Exec S Reply) (r : Request B) (s : S) (e : Exc)
    → (exchange http r s).0 ≡ err e
    → is_network_error e ≡ false
unfolding exchange
exchange-IsTranslated http r s e h = resumed-translated _ _ e h
