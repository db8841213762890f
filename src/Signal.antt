-- ===== src/Signal.antt =====
-- channels/signal_channel. The signal-bridge daemon and httpx are parameters.
pub mod Bridge
