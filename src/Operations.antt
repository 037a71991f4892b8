-- ===== src/Operations.antt =====
-- app/providers/operations: the request handlers. The session gives each of them the organization
-- and the user of the caller, which are arguments here.
pub mod ConversationCreate
pub mod BlockListRequests
pub mod ConversationEdit
pub mod MessageCreate
pub mod MessageDelete
pub mod ReactionsUpdate
pub mod MessageEdit
pub mod Subscription
