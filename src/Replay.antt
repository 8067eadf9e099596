-- ===== src/Replay.antt =====
-- The comparison of recorded and replayed answers in pkg/replay/diff.go.
pub mod Schema
pub mod Types
pub mod Media
pub mod Frames
pub mod Framing
pub mod Unwrap
pub mod Sequence
pub mod Json
pub mod Same
pub mod Clauses
pub mod Equal
pub mod Reflexive
pub mod Wire
pub mod WireDiff
pub mod WireSelf
pub mod Describe
pub mod Reflect
pub mod ReflectSelf
pub mod Compare
pub mod Unchanged
pub mod Parse
mod Tests
