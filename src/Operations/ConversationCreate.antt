-- ===== src/Operations/ConversationCreate.antt =====
-- app/providers/operations/conversation/create/index.js
pub mod Effect
use sama_server.Prelude.{
  ℕ, ◌==◌, Bool, true, false, not, List, [], ◌∷◌, ◌++◌, Option, none, some, if◌then◌else◌, includes,
  is_empty, length, ltb, find,
}
use sama_server.Errors.{
  Action, ◌>>=◌, ◌>>◌, bind, return, read, require, require_some, participants_not_provided,
  too_many_users_in_private, incorrect_user, type_error,
}
use sama_server.Store.{User, Kind, private, group, channel, Conversation, Driver, Store, Config}
use sama_server.Repositories.Users.{find_user, retrieve_existed_ids}
use sama_server.Repositories.Conversations.{find_existed_private_conversation}
use sama_server.Conversation.{restore_private_conversation}
use sama_server.Conversation.Creation.{ConversationParams, create}

-- The owner comes last where the request does not name it.
abbrev pub with_owner : ℕ → List ℕ → List ℕ
with_owner uid ids = if includes uid ids then ids else ids ++ uid ∷ []

-- `paramsOpponentId || participantIds.find(...)`
abbrev pub choose_opponent : ℕ → Option ℕ → List ℕ → Option ℕ
choose_opponent uid (some opponent) ids = some opponent
choose_opponent uid none ids = find (λ x. not (x == uid)) ids

module _ (db : Driver) where
  -- An unknown opponent is looked up and not refused.
  pub validate_private_conversation_participant : ℕ → Option ℕ → List ℕ → Action (Store db) ℕ
  validate_private_conversation_participant uid asked ids = do
    require (ltb (length ids) 3) too_many_users_in_private
    opponent ← require_some (choose_opponent uid asked ids) type_error
    require (not (opponent == uid)) incorrect_user
    return opponent

  pub restore : Config → Conversation → Action (Store db) Conversation
  restore cfg conv = do (_, conv') ← restore_private_conversation db cfg conv; return conv'

  pub restore_or_create :
      Config
      → ℕ
      → Option User
      → ConversationParams
      → ℕ
      → ℕ
      → Option Conversation
      → Action (Store db) Conversation
  restore_or_create cfg uid user params now opponent none =
      create db cfg user (record params { opponent_id = some opponent }) now (uid ∷ opponent ∷ [])
  restore_or_create cfg uid user params now opponent (some conv) = restore cfg conv

  pub create_private_conversation :
      Config → ℕ → Option User → ConversationParams → ℕ → List ℕ → Action (Store db) Conversation
  create_private_conversation cfg uid user params now ids = do
    opponent ← validate_private_conversation_participant uid params.opponent_id ids
    owner ← require_some user type_error
    existed ← read (λ s.
        find_existed_private_conversation db.conversations owner.id opponent params.is_encrypted
          s.conversations)
    restore_or_create cfg uid user params now opponent existed

  pub create_group_conversation :
      Config → ℕ → Option User → ConversationParams → ℕ → List ℕ → Action (Store db) Conversation
  create_group_conversation cfg uid user params now ids = do
    require (not (length (with_owner uid ids) == 1)) participants_not_provided
    create db cfg user params now (with_owner uid ids)

  pub create_channel_conversation :
      Config → ℕ → Option User → ConversationParams → ℕ → List ℕ → Action (Store db) Conversation
  create_channel_conversation cfg uid user params now ids =
      create db cfg user params now (with_owner uid ids)

  abbrev dispatch_kind :
      Kind
      → Config
      → ℕ
      → Option User
      → ConversationParams
      → ℕ
      → List ℕ
      → Action (Store db) Conversation
  dispatch_kind private cfg = create_private_conversation cfg
  dispatch_kind group cfg = create_group_conversation cfg
  dispatch_kind channel cfg = create_channel_conversation cfg

  -- `participants` is empty where the request has none.
  unfoldable pub create_conversation :
      Config → ℕ → ℕ → ConversationParams → List ℕ → ℕ → Action (Store db) Conversation
  unfolding create_private_conversation create_group_conversation create_channel_conversation
      validate_private_conversation_participant restore restore_or_create
  create_conversation cfg org uid params participants now = do
    user ← read (λ s. find_user db.users uid s.users)
    ids ← read (λ s.
        if is_empty participants
        then []
        else retrieve_existed_ids db.users org participants s.users)
    dispatch_kind params.kind cfg uid user params now ids
