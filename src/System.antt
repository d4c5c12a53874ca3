-- ===== src/System.antt =====
-- The launcher as one state: launcher/xlpod-server/src/state.rs, and what surrounds the server.
-- `Env` is everything outside the repository's code: clocks, random numbers, the user at the
-- consent dialog, the file system, the worker process, the key store and the AI provider. Its
-- fields are oracles: the argument `n` counts the external calls of a run, so that two calls may be
-- answered differently. `World` is the mutable part of `AppState`, the counter, and the trace of
-- external effects, the newest first.
mod Types
mod Monad
pub mod Logic
pub mod Order
pub use Types.*
pub use Monad.*
