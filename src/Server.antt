-- ===== src/Server.antt =====
-- The server: src/server and src/tcp. `State` has the shared objects, and each other module the
-- operations of one source file or the proofs about them.
pub mod State
pub mod FlowControl
pub mod Streams
pub mod Clients
pub mod Router
pub mod Headers
pub mod ClientFrames
pub mod AgentServer
pub mod Stable
pub mod StableFrames
pub mod StableAgents
pub mod Slots
pub mod HttpProxy
pub mod Run
pub mod Allocation
pub mod AllocationLiveness
pub mod Registry
pub mod Heartbeat
pub mod Silence
pub mod Answers
pub mod Entries
pub mod Listeners
pub mod Swept
pub mod Stopped
pub mod Closing
pub mod Shutdown
pub mod Invariant
pub mod SlotsRun
pub mod Limits
pub mod Leak
pub mod FlowLaws
mod HeartbeatTests
pub mod Tests
