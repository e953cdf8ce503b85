-- ===== src/Examples.antt =====
-- The theorems at concrete inputs, and tests of the definitions.
mod Waits
mod Arena
mod Follow
mod Inbox
mod Startup
mod Recovery
mod Selectors
mod WsCollection
mod Observation
mod Runtime
mod RetirementControl
mod ReadCursors
mod Wait
mod Replay
mod Delivery
