-- ===== src/Tests.antt =====
-- Tests and worked instances over an in-memory database.
mod Samples
mod Members
mod Blocks
mod Deletion
mod Channels
mod Writing
mod Watching
mod Retrying
mod Creating
mod Sessions
mod Presence
mod Editing
mod Sending
