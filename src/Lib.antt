-- ===== src/Lib.antt =====
-- Verification of the xlpod launcher, a local HTTPS server that gives a browser add-in guarded
-- access to files, a Python worker, Excel and an AI provider.
--
-- The program. A request passes the audit wrapper and then the layers of its route: the checks of
-- the Host and Origin headers, the bearer token with its rate limit, and the scope of the token.
-- Behind them the handlers read files under the roots that the token carries, talk to one shared
-- Python worker over a pipe, or run the conversation loop with an AI provider whose tool calls go
-- through a gate of their own: scopes of the session, plan mode, trust windows, consent dialogs.
--
-- Files, with the sources under launcher/xlpod-server/src:
-- - Common: names of the library, Boolean tests, lists, association lists and texts;
--   Common/Unicode has the lines, the white space and the encodings of a text.
-- - Error, Error/Decode: error.rs, `ApiError` with its statuses and bodies.
-- - Auth, Auth/Store: auth.rs, `Scope`, `TokenRecord` and `TokenStore` (issue, lookup, id_of).
-- - RateLimit: rate_limit.rs, `RateLimiter::check`; RateLimit/Bucket, RateLimit/Window,
--   RateLimit/Bound and RateLimit/Recovery: histories of requests, the specification of the limit,
--   its bound, and its end.
-- - AuditLog, AuditLog/Lines: audit.rs, the lines of the log file.
-- - Json: the operations of serde_json that the handlers use, as a parameter.
-- - Consent: consent.rs.
-- - System/Types, System/Monad, System/Logic, System/Order: state.rs as the record `World`, the
--   environment `Env`, handlers as steps on the world, and rules for what a step may do.
-- - FsRead, FsRead/Safety, FsRead/Roots: fs_read.rs.
-- - Worker, Worker/Lifecycle, Worker/Recovery: python_worker.rs, the slot of the process and one
--   exchange.
-- - Http, Middleware, Middleware/Guards: middleware.rs, requests, responses and the guards.
-- - Routes/Handshake, Routes/Files, Routes/Assistant, Routes/Socket: the handlers of routes.rs.
-- - Routes/Table, Routes/Table/Mediation, Routes/Table/Served: `router` of routes.rs, which layers
--   stand before which handler.
-- - Ai/Types, Ai/Tools, Ai/TrustWindow, Ai/Session, Ai/Cost, Ai/Dispatch: the files of ai/ with
--   these names, each with its theorems in a module below it.
-- - Ai/Chat: `ai_chat` of routes.rs, the conversation loop; Ai/Chat/Calls and Ai/Chat/Turns count
--   the calls of the provider, Ai/Chat/Results is about the tools' answers, Ai/Chat/Following takes
--   the loop apart, Ai/Chat/Growth and Ai/Chat/Stores are about effects and stores, Ai/Chat/Wrote
--   and Ai/Chat/Rounds with Rounds/Loop about the messages.
--   Ai/Dispatch/Acts says what a tool may do.
-- - Ai/Chat/Tasks: `ai_chat` cut at its awaits, `begin_chat` up to the first one and `resume` from
--   each to the next. Tasks/Pool has the executor as a relation; Tasks/Loop and Tasks/Alone are
--   about a task by itself, Tasks/Histories, Tasks/Kept and Tasks/Bound about interleavings.
-- - Ai/Anthropic with Wire, Call and Log: ai/anthropic.rs, the messages on the wire, one call, and
--   the texts of its errors; Ai/Keychain with Laws and Rotation: ai/keychain.rs, two key stores
--   behind one interface; Ai/Providers, Ai/Providers/Script: ai/provider.rs.
-- - Server/Start: the options and the fresh state of lib.rs, with config.rs, bind.rs and tls.rs;
--   Server/Boot, Server/Boot/Listening: `serve`.
-- - Server/History: requests served one after another from a start. The modules before it carry
--   its invariants through every handler: Server/Consented states them, Server/Steps, Server/Chats,
--   Server/Granting, Server/Handlers, Server/Stack and Server/Layers keep them. Server/Audit
--   and Server/Labels: the audit log over such a history, and the token it names.
-- - Ca: ca.rs. Ca/Base64 and Ca/Pem with their theorems: the decoders; Ca/Certificate: the
--   parameters of the certificates; Ca/Step, Ca/Authority, Ca/Authority/Issuance: `ensure`;
--   Ca/TrustStore: `install_user_root`.
-- - Tray/Dialog, Tray/Dialog/Shown: launcher/xlpod-launcher/src/consent_messagebox.rs.
-- - Tests: a small concrete system, on which the theorems are applied.
--
-- How state and effects are modelled. A handler is a function from a world to a value or an
-- `ApiError`, with the world after it; maps are association lists, files that are only appended to
-- are lists of their entries. What the launcher asks of the outside (clocks, random numbers, the
-- file system, the user, the worker's pipes, the provider, the keychain) is a field of `Env`
-- indexed by the count of external calls so far, so that two calls may be answered differently; the
-- effects that the theorems speak of are added to the world's trace, the latest first. A theorem
-- holds for every environment. Path components are texts, so a canonical path is a list of them.
--
-- The start of the server and `ensure` have hosts of their own, `Host` and `CaHost`, whose calls
-- answer `none` where they succeed and else the text of their error; the provider of Anthropic has
-- `Upstream`, the HTTP client and serde. The conversation loop does not depend on that provider: it
-- takes any provider as an oracle.
--
-- Bounds and conventions. An `Instant` is a number of nanoseconds from an origin at least a second
-- before the first request, so `now - WINDOW` exists. Amounts of money are 64-bit numbers that
-- saturate in one row and wrap in the sum over the rows, as in a release build; request numbers of
-- the worker wrap at 2^64; the length of a bucket is cast to 32 bits. The buffer of the base64
-- decoder is a 32-bit word whose shift drops the high bits; a byte is a number below 256. The times
-- of a certificate are offsets from the clock. A path of the start is a text. The conversation loop
-- is a recursion on its eight turns, and every other loop on its list, so no fuel is needed
-- anywhere.
--
-- Interleaving. A handler runs as a whole, as if no other request came between, except for
-- `ai_chat`, which in Ai/Chat/Tasks gives way at its awaits, where other chats go on. Requests of
-- other kinds are steps of that relation, of which it is assumed that they call no provider. That
-- they only lengthen transcripts is proved of the router, but for handshakes and for openings of
-- sessions, where a new session may get the id of an old one; these are not among the steps of
-- Tasks/Kept. Inside one step nothing interferes.
--
-- Panics. The provider of Anthropic may panic, in the text of an error, and `provider_chat` says
-- when. The oracle of the conversation loop has no such answer: a chat whose provider panics, and
-- which then leaves no audit entry, is not modelled.
--
-- Not modelled. Handlers other than `ai_chat` that interleave at an `await`, and a tool call that
-- gives way inside itself. Routing, parsing and body limits are the framework's; a parsed call, or
-- one that the framework rejects, is the input. The making of keys and signatures, SHA-1, TLS
-- itself, the trust store of Windows, its credential manager and message box, the encoder of JSON,
-- HTTP and serde are other packages, which the definitions take as parameters. Logging, shutdown,
-- the tray's icon and event loop (launcher/xlpod-launcher/src/main.rs), the worker's Python source
-- and the Python client are outside the model: they are input and output, or another language.
pub mod Common
pub mod Error
pub mod Auth
pub mod AuditLog
pub mod RateLimit
pub mod Json
pub mod Ai
pub mod Consent
pub mod System
pub mod FsRead
pub mod Worker
pub mod Http
pub mod Middleware
pub mod Routes
pub mod Tray
pub mod Ca
pub mod Server
pub mod Tests
