-- ===== src/Tests.antt =====
-- Inputs and witnesses of the theorems.
mod Q
mod Dupes
mod Purge
mod History
mod Peers
mod Locks
mod Wire
mod Listener
mod Parser
mod Feeds
mod Hashes
mod Lines
mod Sessions
mod Stations
mod LoginLines
mod Ranges
