-- ===== src/Operations/MessageCreate.antt =====
-- app/providers/operations/message/create/index.js: the checks that come before a message is stored.
pub mod Blocked
pub mod Storing
pub mod Parties
pub mod Written
pub mod Stored
use sama_server.Prelude.{
  ℕ, Bool, true, false, not, ◌&&◌, ◌||◌, List, [], ◌∷◌, Option, none, some, if◌then◌else◌, is_empty,
}
use sama_server.Errors.{
  Action, ◌>>=◌, ◌>>◌, bind, return, read, require, require_some, conversation_not_found, forbidden,
  user_blocked, incorrect_reply_message_id,
}
use sama_server.Store.{Conversation, Message, Driver, Store, Config}
use sama_server.Repositories.Conversations.{is_private, is_channel}
use sama_server.Repositories.Messages.{find_message_by_id}
use sama_server.Conversation.{Access, has_access_to_conversation}
use sama_server.BlockList.{list_mutual_blocked_ids}

-- `[conversation.owner_id, conversation.opponent_id]`; an undefined opponent is cast to a new id, which
-- no user has.
abbrev pub private_recipients : Conversation → List ℕ
private_recipients conv = elim conv.opponent_id [
  | none ↦ conv.owner_id ∷ []
  | some opponent ↦ conv.owner_id ∷ opponent ∷ []
]

-- Whether the caller may write where the logic of channels is on.
abbrev pub may_write : Config → Conversation → Access → Bool
may_write cfg conv a =
    cfg.disable_channels_logic || (not (is_channel conv.kind) || (a.as_owner || a.as_admin))

module _ (db : Driver) where
  pub check_conversation : Config → ℕ → ℕ → ℕ → Action (Store db) Conversation
  check_conversation cfg org cid uid = do
    access ← read (has_access_to_conversation db org cid uid)
    conv ← require_some access.conversation conversation_not_found
    require (may_write cfg conv access) forbidden
    require access.as_participant forbidden
    return conv

  pub check_blocked : ℕ → List ℕ → Action (Store db) (Unit {0})
  check_blocked uid recipients = do
    blocked ← read (list_mutual_blocked_ids db uid recipients)
    require (is_empty blocked) user_blocked

  pub check_private : Conversation → ℕ → Action (Store db) (Unit {0})
  check_private conv uid =
      if is_private conv.kind then check_blocked uid (private_recipients conv) else return tt

  pub check_access : Config → ℕ → ℕ → ℕ → Action (Store db) Conversation
  check_access cfg org cid uid = do
    conv ← check_conversation cfg org cid uid
    check_private conv uid
    return conv

  pub validate_replied_message_id : ℕ → ℕ → Option ℕ → Action (Store db) (Unit {0})
  validate_replied_message_id cid uid none = return tt
  validate_replied_message_id cid uid (some mid) = do
    found ← read (λ s. find_message_by_id db.messages cid uid mid s.messages)
    _ ← require_some found incorrect_reply_message_id
    return tt

  -- What `perform` checks before it runs the handler of the conversation and stores the message.
  unfoldable pub check_message : Config → ℕ → ℕ → ℕ → Option ℕ → Action (Store db) Conversation
  unfolding check_conversation check_blocked check_private check_access validate_replied_message_id
  check_message cfg org cid uid replied = do
    conv ← check_access cfg org cid uid
    validate_replied_message_id cid uid replied
    return conv
