-- ===== src/StateMachine.antt =====
-- src/state_machine.cc: the replicated state machine. Raft is a parameter: `replicate` hands a log entry
-- to raft_node_->apply and waits for the closure, whose status it returns.
pub mod Apply
pub mod Requests
pub mod Leader
pub mod Answers
pub mod Replay
pub mod Progress
pub mod Durable
pub mod Sample
pub mod Startup
pub mod Releasing
pub mod Local
mod Examples
