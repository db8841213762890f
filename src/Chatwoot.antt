-- ===== src/Chatwoot.antt =====
-- infrastructure/chatwoot_client/cw_client.py and infrastructure/provider_models.py. The HTTP
-- session, base64.b64decode and mimetypes.guess_type are arguments.
pub mod Http
pub mod Attachments
pub mod Uploads
pub mod Contacts
pub mod Deliver
pub mod Limits
pub mod RoundTrip
pub mod Counting
pub mod Once
