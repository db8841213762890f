-- ===== src/Errors.antt =====
-- core/exceptions.py and the exceptions of Python and of the packages that the gateway handles.
-- Messages are left out. A class that nothing tests for is `other`. asyncio.CancelledError is no
-- Exception, and none here.
use delta_gateway_chat_woot.Base.{ℕ, ℤ, pos, String, Bool, true, false, Option, ◌≡◌, refl}

pub data Exc : Type 0 where
  connector_not_found_error wrong_update_type_error idempotency_key_already_processed_error : Exc
  transient_error : (max_transient_attempts : ℕ) → (retry_delay_seconds : ℤ) → Exc
  rate_limit_error : (retry_after_seconds : ℤ) → Exc
  fatal_error : Exc
  value_error type_error key_error index_error attribute_error runtime_error : Exc
  os_error connection_error timeout_error : Exc
  postgres_connection_error cannot_connect_now_error interface_error : Exc
  duplicate_database_error : Exc
  -- aiohttp's: the others are subclasses of the first
  client_error content_type_error client_connector_error server_disconnected_error : Exc
  -- aiogram's: the others are subclasses of the last, which has a delay for some
  telegram_network_error telegram_bad_request : Exc
  telegram_retry_after : (retry_after : ℤ) → Exc
  telegram_api_error : (retry_after : Option ℤ) → Exc
  http_exception : (status_code : ℕ) → Exc
  -- channels/signal_channel/sig_bot_manager.py and channels/simplex_channel/sx_bot_manager.py
  signal_bridge_error simplex_error : (transient : Bool) → Exc
  -- httpx's: the others are subclasses of the last
  httpx_connect_error httpx_timeout_exception httpx_http_error : Exc
  assertion_error : Exc
  other : (name : String) → Exc

-- TransientError(message)
abbrev pub transient_default : Exc
transient_default = transient_error 10 (pos 600)

-- TransientError(message, retry_delay_seconds=...)
abbrev pub transient_after : ℤ → Exc
transient_after delay = transient_error 10 delay

-- RateLimitError.DEFAULT_RETRY_AFTER_SECONDS
abbrev pub default_retry_after_seconds : ℤ
default_retry_after_seconds = pos 5

pub data Result {ℓ} (A : Type ℓ) : Type ℓ where
  ok : A → Result A
  err : Exc → Result A

-- A chain of results with no state.
infixl 10 ◌>>=ᵣ◌
abbrev pub ◌>>=ᵣ◌ {ℓ κ} : {A : Type ℓ} {B : Type κ} → Result A → (A → Result B) → Result B
ok a >>=ᵣ f = f a
err e >>=ᵣ f = err e

-- A chain that returns: its first step does.
pub >>=ᵣ-eq-ok :
    {A B : Type 0} (r : Result A) (f : A → Result B) {b : B}
    → (r >>=ᵣ f) ≡ ok b
    → (a : A) × (r ≡ ok a) × (f a ≡ ok b)
>>=ᵣ-eq-ok (ok a) f h = (a, refl, h)
>>=ᵣ-eq-ok (err e) f h = cc h

-- What a result has if it is one.
abbrev pub Gives : {A : Type 0} → (A → Type 0) → Result A → Type 0
Gives P (ok a) = P a
Gives P (err e) = Unit {0}

pub bind-Gives :
    {A B : Type 0} (P : B → Type 0) (r : Result A) (f : A → Result B)
    → ((a : A) → Gives P (f a))
    → Gives P (r >>=ᵣ f)
bind-Gives P (ok a) f g = g a
bind-Gives P (err e) f g = tt

-- The same with the equation of the first step.
pub bind-Gives-eq :
    {A B : Type 0} (P : B → Type 0) (r : Result A) (f : A → Result B)
    → ((a : A) → r ≡ ok a → Gives P (f a))
    → Gives P (r >>=ᵣ f)
bind-Gives-eq P (ok a) f g = g a refl
bind-Gives-eq P (err e) f g = tt

pub Gives-at : {A : Type 0} (P : A → Type 0) (r : Result A) (a : A) → r ≡ ok a → Gives P r → P a
Gives-at P (ok b) a h g = let e : a ≡ b = cc h in rw e g
Gives-at P (err e) a h g = cc h

-- The same where the first step's results have something too.
pub bind-Gives₂ :
    {A B : Type 0} (O : A → Type 0) (P : B → Type 0) (r : Result A) (f : A → Result B)
    → Gives O r
    → ((a : A) → O a → Gives P (f a))
    → Gives P (r >>=ᵣ f)
bind-Gives₂ O P (ok a) f o g = g a o
bind-Gives₂ O P (err e) f o g = tt

-- isinstance(exc, (ClientError, TimeoutError))
abbrev pub is_network_error : Exc → Bool
is_network_error client_error = true
is_network_error content_type_error = true
is_network_error client_connector_error = true
is_network_error server_disconnected_error = true
is_network_error timeout_error = true
is_network_error _ = false
