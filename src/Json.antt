-- ===== src/Json.antt =====
-- The text half of src/common/rpc.c: JSON strings written into fixed buffers and growing builders,
-- UTF-8 kept or escaped, and how much of a chunk of output is sent before the next one is there.
pub mod Chunk
pub mod Buffer
pub mod Envelope
pub mod Builder
pub mod Prefix
pub mod Reader
pub mod RoundTrip
pub mod Sequence
pub mod Classify
pub mod Utf8
pub mod Valid
pub mod Lead
pub mod HeldBack
pub mod Promise
pub mod Room
pub mod Growth
pub mod Content
mod Tests
