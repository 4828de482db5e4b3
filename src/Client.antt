-- ===== src/Client.antt =====
-- src/client/cpp: the C++ client. Its connection and its remote calls have modules of their own.
pub mod Connection
pub mod Rpc
pub mod Files
pub mod Dialing
pub mod Streams
pub mod Frames
pub mod Answers
pub mod InStep
pub mod Remote
pub mod Durable
pub mod Fetching
mod Examples
