-- ===== src/Repositories.antt =====
-- app/providers/repositories: the queries of each repository, over the repository's collection.
pub mod Participants
pub mod Conversations
pub mod BlockedUsers
pub mod Messages
pub mod Users
