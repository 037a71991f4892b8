-- ===== src/Operations/MessageEdit.antt =====
-- app/providers/operations/message/edit/index.js
pub mod Effect
use Prim.Native.String.{String}
use sama_server.Prelude.{
  ℕ, ◌==◌, Bool, true, false, List, [], ◌∷◌, Option, none, some, if◌then◌else◌,
}
use sama_server.Errors.{
  Action, ◌>>=◌, ◌>>◌, bind, return, read, write, require, require_some, message_id_not_found,
  forbidden, type_error,
}
use sama_server.Store.{Conversation, Message, Kind, Driver, Store}
use sama_server.Repositories.Conversations.{find_by_id}
use sama_server.Repositories.Messages.{update_body}
use sama_server.Messages.{MessageAccess, has_access_to_message}
use sama_server.Operations.MessageDelete.{private_participants}

pub record Edited : Type 0 where
  pub conversation_id : ℕ
  pub participants_ids : Option (List (Option ℕ))
  pub message_id : ℕ
  pub cid : ℕ
  pub c_type : Kind
  pub from : ℕ
  pub body : Option String

module _ (db : Driver) (same : ℕ → ℕ → Bool) where
  pub check_author : ℕ → ℕ → Action (Store db) Message
  check_author mid uid = do
    access ← read (has_access_to_message db same mid uid)
    message ← require_some access.message message_id_not_found
    require access.as_owner forbidden
    return message

  -- What is left to do once the body is written. A conversation that is gone is null, and asking for
  -- its type is a TypeError.
  pub report : ℕ → ℕ → Option String → Message → Action (Store db) Edited
  report uid mid body message = do
    found ← read (λ s. find_by_id db.conversations message.cid s.conversations)
    conv ← require_some found type_error
    return (record {
      conversation_id = conv.id;
      participants_ids = private_participants conv;
      message_id = mid;
      cid = message.cid;
      c_type = conv.kind;
      from = uid;
      body = body;
    })

  -- `now` is the time of the write.
  unfoldable pub edit_message : ℕ → ℕ → Option String → ℕ → Action (Store db) Edited
  unfolding check_author report
  edit_message uid mid body now = do
    message ← check_author mid uid
    write (λ s. record s { messages = update_body db.messages mid body now s.messages })
    report uid mid body message
