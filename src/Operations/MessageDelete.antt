-- ===== src/Operations/MessageDelete.antt =====
-- app/providers/operations/message/delete/index.js
pub mod Safety
pub mod Effect
pub mod Complete
pub mod Hidden
use sama_server.Prelude.{
  ℕ, Bool, true, false, not, ◌&&◌, ◌||◌, List, [], ◌∷◌, map, Option, none, some, if◌then◌else◌,
  is_empty,
}
use sama_server.Errors.{
  Action, ◌>>=◌, ◌>>◌, bind, return, read, write, require, require_some, conversation_not_found,
  forbidden,
}
use sama_server.Store.{Kind, Conversation, Message, Driver, Store}
use sama_server.Repositories.Conversations.{is_private}
use sama_server.Conversation.{Access, has_access_to_conversation}
use sama_server.Messages.{
  find_messages_by_ids, validate_messages_for_delete, delete_messages_for_everyone,
  hide_messages_for_user,
}

pub record DeleteParams : Type 0 where
  pub cid : ℕ
  pub ids : List ℕ
  -- `type === "all"`
  pub for_all : Bool

-- `[conversation.owner_id, conversation.opponent_id]` of a private conversation, and null of others
abbrev pub private_participants : Conversation → Option (List (Option ℕ))
private_participants conv =
    if is_private conv.kind then some (some conv.owner_id ∷ conv.opponent_id ∷ []) else none

-- DeleteMessagesPublicFields
pub record DeletedMessages : Type 0 where
  pub ids : List ℕ
  pub cid : ℕ
  pub c_type : Kind
  pub from : ℕ

pub record Deleted : Type 0 where
  pub conversation_id : ℕ
  pub participants_ids : Option (List (Option ℕ))
  pub deleted_messages : Option DeletedMessages

abbrev pub can_moderate : Conversation → Access → Bool
can_moderate conv a = not (is_private conv.kind) && (a.as_owner || a.as_admin)

abbrev pub deleted_of : DeleteParams → ℕ → Conversation → Deleted
deleted_of params uid conv =
    let fields : DeletedMessages = record {
      ids = params.ids;
      cid = params.cid;
      c_type = conv.kind;
      from = uid;
    } in
    record {
      conversation_id = conv.id;
      participants_ids = private_participants conv;
      deleted_messages = if params.for_all then some fields else none;
    }

module _ (db : Driver) where
  pub check_access : ℕ → ℕ → ℕ → Action (Store db) (Conversation × Access)
  check_access org cid uid = do
    access ← read (has_access_to_conversation db org cid uid)
    conv ← require_some access.conversation conversation_not_found
    require access.as_participant forbidden
    return (conv, access)

  unfoldable pub remove_found :
      DeleteParams → ℕ → ℕ → Conversation → Bool → List ℕ → Store db → Store db
  remove_found params org uid conv moderates ids s =
      if params.for_all
      then delete_messages_for_everyone db ids conv.id org (if moderates then none else some uid) s
      else hide_messages_for_user db ids uid conv.id org s

  -- The deletion or hiding of the messages that were found.
  pub apply :
      DeleteParams → ℕ → ℕ → Conversation → Bool → List Message → Action (Store db) (Unit {0})
  apply params org uid conv moderates found = do
    validate_messages_for_delete db found conv.id org uid (params.for_all && not moderates)
    write (remove_found params org uid conv moderates (map (λ m. m.id) found))

  pub delete_found : ℕ → ℕ → DeleteParams → Conversation → Access → Action (Store db) Deleted
  delete_found org uid params conv access = do
    found ← read (find_messages_by_ids db params.ids)
    if is_empty found then return tt else apply params org uid conv (can_moderate conv access) found
    return (deleted_of params uid conv)

  unfoldable pub delete_messages : ℕ → ℕ → DeleteParams → Action (Store db) Deleted
  unfolding check_access delete_found apply
  delete_messages org uid params = do
    (conv, access) ← check_access org params.cid uid
    delete_found org uid params conv access
