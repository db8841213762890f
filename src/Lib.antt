-- ===== src/Lib.antt =====
-- The gateway of src/multichannel_gateway with its channel plugins under channels: webhooks of
-- messengers and of Chatwoot become envelopes, which wait in two queues of PostgreSQL (pgmq)
-- until a worker delivers them to Chatwoot or to a messenger.
--
-- How the parts interact. A webhook reaches an endpoint (Webhooks). Towards Chatwoot, the
-- orchestrator (Orchestrator) asks the registered channel (Registry) to build an envelope,
-- replaces the sender by an alias (Alias) or a prefixed identifier (Envelope), and has the
-- channel publish it (Publish): the idempotency key is looked up, the envelope sent to the
-- queue, the key marked (Queue). A worker (Worker) reads it, extracts the trace context (Trace)
-- and calls the Chatwoot client (Chatwoot). Towards a messenger, the handler finds the channel
-- by the identifier's prefix, and a worker hands the envelope to that channel, here Telegram
-- (Telegram) or Delta Chat (DeltaChat). Signal and SimpleX messages come and go over one
-- connection to a daemon each (Signal, Simplex), whose answers find the senders that wait for
-- them.
--
-- Files and code. Paths are from the repository's root; core/, app/ and infrastructure/ stand
-- for src/multichannel_gateway/core/, src/multichannel_gateway/app/ and
-- src/multichannel_gateway/infrastructure/.
-- - Errors, Exec, Values, Base: exceptions as one data type
--   (src/multichannel_gateway/core/exceptions.py and those of the packages), methods as
--   functions from a state to a result and a state, JSON values as Python holds them, and shared
--   helpers.
-- - Models, Envelope: core/core_models.py, core/attachment_models.py and
--   core/interfaces/envelope_factory.py; hashlib's digest is the argument `hash`.
-- - World: the database, the pool of infrastructure/pg_conn_manager.py and the error translation
--   of infrastructure/postgres_transient.py. A list of faults says what each next statement
--   meets: refused before the server runs it, or its answer lost behind it.
-- - Queue, Trace: infrastructure/pg_message_queue.py and
--   infrastructure/telemetry/propagation.py; pgmq's functions, the JSON codec and
--   OpenTelemetry's carrier are arguments.
-- - Alias, Identity: infrastructure/contact_alias_store.py and infrastructure/identity_store.py;
--   uuids are drawn from an argument.
-- - Worker: app/workers/base.py as a function for one message (handle_with_retries,
--   handle_error) and as a step relation for the loop and its tasks (Worker/Tasks); Worker/Loop
--   has one turn of run, up to the messages it processes; Worker/Delivery has to_chatwoot.py and
--   from_chatwoot.py.
-- - Registry, Orchestrator, Webhooks: infrastructure/registry.py,
--   app/services/channel_to_chatwoot_orchestrator.py, app/services/handlers.py and
--   infrastructure/endpoints.py. The generated user name is an argument, since it is random.
-- - Chatwoot: infrastructure/chatwoot_client/cw_client.py over a server that is an argument.
-- - Publish, Telegram: channels/telegram_channel, with the Bot API as an argument; Publish is
--   the step that the other channels' message processors have too.
-- - DeltaChat: channels/delta_chat_channel, its routing, attachments both ways (Attachments,
--   Extract), message processor, transport (Transport, with the temporary files as state) and
--   client (Client: its tables and threads; Accounts and Credentials: start, provisioning and
--   stop; Events: one turn of an event loop; Download: the wait for a file). The core, the file
--   system and the HTTP sessions are arguments.
-- - Signal: channels/signal_channel/sig_bot_manager.py, the connection to signal-bridge as
--   functions (Bridge) and, with its senders and the daemon, as a step relation (Bridge/Steps).
-- - Simplex: channels/simplex_channel/sx_bot_manager.py, the messages of the CLI (Messages) and
--   the connection to it, as functions (Connection, Commands) and as a step relation (Steps).
-- - Startup: app/utils/runtime.py.
-- - Examples: sample data, at which the theorems with hypotheses are applied.
--
-- Bounds and fuel. Decimal notation runs on the number itself as fuel, more than its digits. The
-- wait at startup runs on fuel, with a theorem that as much as the attempts that are left is
-- enough. The wait for a message's file runs on fuel too, one round more than the milliseconds
-- of the timeout, which is more than it can take, since a round sleeps 0.2 seconds. All else is
-- structural.
--
-- Not modelled. Logs, spans and metrics; the cancellation of tasks, but for the senders of the
-- Signal and SimpleX connections; which threads of the Delta Chat client run, beyond the list
-- that it keeps of them; numbers with a fraction, so times are whole seconds; digits and spaces
-- outside ASCII; the other channels, of Signal and SimpleX all but the connection, the deltawoot
-- bot, the session, sidecar, signal-bridge and simplex services; configuration and wiring; the
-- DDL statements, which change nothing that is modelled; the pause of a worker after a failed
-- read.
pub mod Base
pub mod Errors
pub mod Values
pub mod Exec
pub mod Models
pub mod Envelope
pub mod World
pub mod Trace
pub mod Queue
pub mod Publish
pub mod Worker
pub mod Alias
pub mod Identity
pub mod Registry
pub mod Orchestrator
pub mod Webhooks
pub mod Chatwoot
pub mod Telegram
pub mod DeltaChat
pub mod Signal
pub mod Simplex
pub mod Startup
pub mod Examples
