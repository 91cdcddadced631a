-- ===== src/Lib.antt =====
-- Remote KVM: a server that pairs clients with the agents of machines, and the two ends of the video
-- stream. This library models its core and proves what the parts promise.
--
-- The program. An agent (apps/agent) logs in with the token of its machine and keeps a WebSocket open
-- to the server (apps/server). A user's client (apps/client) asks the REST interface for a session on
-- a machine, opens a WebSocket of its own and sends an offer; the relay (apps/server/src/websocket.rs)
-- checks that the session belongs to the user, passes the offer to the agent's channel and the answer
-- back. Then media flow from the encoder of the agent to the decoder of the client.
--
-- The model. Base holds what every part shares: tests on numbers and strings, lists, maps as
-- association lists, and Base/Exec, the state monad with errors that the handlers are written in.
--
--   Server/Schema        the tables of apps/server/migrations as lists of rows
--   Server/App           error.rs, and how a SQL statement runs; App/Keeps and App/Selects, its rules
--   Server/Messages      the SignalingMessage of websocket.rs
--   Server/Channels      the bounded mpsc channels, as a store of queues
--   Server/Redis         RedisSignalingStore of websocket.rs
--   Server/Registry      SignalingState of websocket.rs, one function per method
--   Server/Sessions      the statements on `sessions` of websocket.rs
--   Server/Relay         handle_agent_message, handle_client_message, and the start and the end of
--                        handle_agent_socket and handle_client_socket; Relay/Events, their sequences;
--                        Relay/Loops, the select loops of two sockets as a step relation over them
--   Server/Routes        what the handlers of routes share; Routes/Rules and Routes/Outcomes, rules for
--                        the state and for the result that a handler leaves
--   Server/Organizations invite_member and share_machine of routes/organizations.rs, and
--                        accept_pending_invites of auth/routes.rs
--   Server/Machines      routes/machines.rs, and validate_agent_token of websocket.rs
--   Server/Connect       connect_machine and ensure_usage_quota of routes/sessions.rs
--   Server/Signature     verify_signature and ct_eq of routes/billing.rs; Signature/Header, the parts of
--                        the header
--   Server/Billing       stripe_webhook of the same file
--   Server/Checkout      create_checkout and CheckoutTarget::load of routes/billing.rs
--   Server/Login         is_loopback_redirect of auth/routes.rs; Login/Callback, login_init and
--                        workos_callback; Login/Upserts, the rows that they write;
--                        Login/Conflicts, the unique columns
--   Server/RateLimiter   RateLimiter of util.rs
--   Protocol             the messages of crates/protocol/src/lib.rs
--   Client/Assembler     H264AccessUnitAssembler of apps/client/src/media.rs
--   Client/AnnexB        annex_b_nalus and annex_b_to_avcc_sample of the same file
--   Client/Strided       copy_strided_video_image and the functions that it calls
--   Client/Playback      enqueue, resample_interleaved and fill_output_* of the audio device
--   Client/Decoder       ParameterSets, MacH264DecoderState and WindowsH264DecoderState
--   Client/Auth          AuthFlow, LoopbackReceiver and parse_deep_link of apps/client/src/auth.rs;
--                        Auth/Reads, its buffer; Auth/Receiver, its answer to the redirect
--   Client/Input         egui_event_to_input of apps/client/src/app.rs and its key table
--   Agent/AnnexB         append_avcc_as_annex_b of apps/agent/src/macos/annex_b.rs and ensure_annex_b
--                        of apps/agent/src/windows/encode.rs
--   Agent/Audio          apps/agent/src/windows/audio.rs: WasapiFormat, read_capture_packet,
--                        AudioNormalizer, OpusEncoder and the encoding task
--   Agent/Input          the injectors of apps/agent/src/input.rs and windows/input.rs
--   Agent/Service        SessionAgents and run_controller of apps/agent/src/windows/service.rs;
--                        Service/CommandLine, the command line of a session agent
--   Percent              percent_encode and urlencode of the two ends
--   TokenDelivery        a login from the server's callback to the client's receiver
--   Keyboard             a key from the client's window to the two injectors
--   Tests                the theorems at concrete inputs
--
-- Conventions. A UUID is its number, a time is a number of seconds, a byte is a number. A handler is a
-- function from the state to a result and the state after it; each statement is one step, and the
-- state carries for every statement to come whether the database fails it, so that a theorem without a
-- hypothesis on `faults` covers every pattern of failures. A channel's send gives `delivered`,
-- `dropped` or `awaiting`, the last where the source would wait for room. Fields that no modelled code
-- reads are left out of the records.
--
-- Parameters. Code outside of the repository is an argument: JSON and the text form of UUIDs (`Wire`,
-- whose one law is that a printed UUID parses back), the case tables of Unicode, `hash_token` and
-- the HMAC, the keys and tokens that are drawn at random, the start of the month, and the depacketizer
-- of RTP. So are libopus, VideoToolbox and Media Foundation, the answers of Windows on sessions and
-- processes, and the arithmetic of `f32` and `f64`: a sample is its bits, the formula of the resampler is
-- over operations of `f64` with the laws of IEEE 754 (Agent/Floats), and its position, whose floor is
-- exact below 2^53, is a number. The callback of the client takes what each read of its socket gives.
-- How Windows splits a command line, and how the `url` crate reads a query, are parameters with the
-- laws that their documentation gives. WorkOS, Stripe, the signatures of JWT and
-- Unicode's tables are parameters too.
--
-- Bounds. Counters keep the width that the source gives them: the connection ids wrap at 2^64, and
-- `BIGINT` sums raise an error out of range. The loops over bytes in Agent/AnnexB and Client/AnnexB have
-- one more than the sample's length as fuel, while each turn passes a length or a start code; the
-- theorems there give the loops' results, so that it is enough for the samples they speak of. No other
-- loop has fuel. A `usize` is one of 64 bits: the checked sums of Client/Strided fail from 2^64 on. A
-- slice or an index out of range is `none`, the panic of the source.
--
-- Not modelled: the locks of the maps, the JWT middleware, read-only listings, the pixel conversion of
-- the agent's encoders, the vectors that the copies of Client/Strided allocate, and all that only calls the platform (windows, GPU, encoders, audio devices, WebRTC,
-- process start and configuration).
pub mod Base
pub mod Protocol
pub mod Server
pub mod Client
pub mod Agent
pub mod Keyboard
pub mod Percent
pub mod TokenDelivery
mod Tests
