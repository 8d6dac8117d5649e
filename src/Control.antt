-- ===== src/Control.antt =====
-- src/controller/control.c: the control socket of a controller, its table of clients, how requests
-- are read, and how responses are queued and written.
pub mod Client
pub mod Enqueue
pub mod Flush
pub mod Accept
pub mod Read
pub mod Valid
pub mod Slots
pub mod Invariant
pub mod Safety
pub mod Table
pub mod Streams
pub mod Writing
pub mod Sending
pub mod Framing
pub mod Frames
pub mod Lines
pub mod Requests
pub mod Clock
pub mod Stored
pub mod Calls
pub mod Delivery
mod Tests
