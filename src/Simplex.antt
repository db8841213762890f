-- ===== src/Simplex.antt =====
-- channels/simplex_channel. The simplex-chat CLI is a parameter.
pub mod Messages
pub mod Connection
