-- ===== src/Dn42/Wire/RoundTrip.antt =====
-- What is read of the messages that were written.
pub mod Loops
pub mod Frames
pub mod Routes
pub mod Segments
pub mod Headers
pub mod Attrs
pub mod AttrLists
pub mod Opens
pub mod Updates
pub mod Messages
pub mod Streams
pub mod Panics
