-- ===== src/Operations/ReactionsUpdate.antt =====
-- app/providers/operations/message/reactions_update/index.js
pub mod Effect
use Prim.Native.String.{String}
use sama_server.Prelude.{
  ℕ, Bool, true, false, not, ◌&&◌, ◌||◌, List, Option, none, some, if◌then◌else◌,
}
use sama_server.Errors.{
  Action, ◌>>=◌, ◌>>◌, bind, return, read, require, require_some, message_id_not_found, type_error,
}
use sama_server.Store.{Conversation, Message, Kind, Driver, Store, Config}
use sama_server.Repositories.Conversations.{find_by_id, is_channel}
use sama_server.Messages.{MessageAccess, has_access_to_message, update_reactions}
use sama_server.Operations.MessageDelete.{private_participants}

pub record ReactionParams : Type 0 where
  pub mid : ℕ
  pub add : Option String
  pub remove : Option String

pub record ReactionsReport : Type 0 where
  pub conversation_id : ℕ
  pub participants_ids : Option (List (Option ℕ))
  pub message_id : ℕ
  pub cid : ℕ
  pub c_type : Kind
  pub from : ℕ
  pub add : Option String
  pub remove : Option String
  pub is_updated : Bool

module _ (db : Driver) (same : ℕ → ℕ → Bool) where
  pub check_message : ℕ → ℕ → Action (Store db) Message
  check_message mid uid = do
    access ← read (has_access_to_message db same mid uid)
    message ← require_some access.message message_id_not_found
    require (not access.self_deleted) message_id_not_found
    return message

  pub report :
      Config → ℕ → ReactionParams → Message → Bool × Bool → Action (Store db) ReactionsReport
  report cfg uid params message (added, removed) = do
    found ← read (λ s. find_by_id db.conversations message.cid s.conversations)
    conv ← require_some found type_error
    return (record {
      conversation_id = conv.id;
      participants_ids = private_participants conv;
      message_id = params.mid;
      cid = message.cid;
      c_type = conv.kind;
      from = uid;
      add = if added then params.add else none;
      remove = if removed then params.remove else none;
      is_updated = cfg.disable_channels_logic || not (is_channel conv.kind);
    })

  pub report_changed :
      Config
      → ℕ
      → ReactionParams
      → Message
      → Bool × Bool
      → Action (Store db) (Option ReactionsReport)
  report_changed cfg uid params message (added, removed) = do
    r ← report cfg uid params message (added, removed)
    return (some r)

  -- None stands for the answer `{ isUpdated: false }` alone.
  unfoldable pub update_message_reactions :
      Config → ℕ → ReactionParams → Action (Store db) (Option ReactionsReport)
  unfolding check_message report report_changed
  update_message_reactions cfg uid params = do
    message ← check_message params.mid uid
    updated ← update_reactions db message.id uid params.add params.remove
    if updated.0 || updated.1 then report_changed cfg uid params message updated else return none
