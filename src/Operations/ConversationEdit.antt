-- ===== src/Operations/ConversationEdit.antt =====
-- app/providers/operations/conversation/edit/index.js and conversation/delete/index.js: what they do
-- before the events for the participants are made, which is all where these are switched off.
pub mod Allowed
pub mod Effect
pub mod Leaving
use sama_server.Prelude.{
  ℕ, Bool, true, false, not, ◌&&◌, ◌||◌, List, [], ◌∷◌, ◌++◌, Option, none, some, if◌then◌else◌,
  is_empty,
}
use sama_server.Errors.{
  Action, ◌>>=◌, ◌>>◌, bind, return, read, write, require, require_some, bad_request, forbidden,
  participant_not_found, type_error, ok,
}
use sama_server.Store.{IdChanges, Conversation, Driver, Store, Config}
use sama_server.Repositories.Conversations.{is_private, UpdateFields, update}
use sama_server.Repositories.Users.{retrieve_existed_ids}
use sama_server.Conversation.{
  has_access_to_conversation, update_participants, remove_participants, participants_add_admin_role,
  participants_remove_admin_role,
}

-- What the request has beside the id: the fields have `participants` among them.
pub record EditParams : Type 0 where
  pub fields : UpdateFields
  pub admins : Option IdChanges

abbrev pub added_ids : Option IdChanges → List ℕ
added_ids none = []
added_ids (some c) = c.add

-- `updateParticipants` with the new admins among those to add
abbrev pub with_admins : Option IdChanges → List ℕ → Option IdChanges
with_admins changes [] = changes
with_admins none (a ∷ ids) = some (record { add = a ∷ ids; remove = [] })
with_admins (some c) (a ∷ ids) = some (record c { add = c.add ++ a ∷ ids })

module _ (db : Driver) where
  unfoldable pub check_edit_access : ℕ → ℕ → ℕ → Action (Store db) (Unit {0})
  check_edit_access org cid uid = do
    access ← read (has_access_to_conversation db org cid uid)
    conv ← require_some access.conversation bad_request
    require (is_private conv.kind || (access.as_owner || access.as_admin)) forbidden

  unfoldable pub update_fields : ℕ → UpdateFields → Action (Store db) (Option Conversation)
  update_fields cid f s =
      let r = update db.conversations cid f s.conversations in
      (ok r.0, record s { conversations = r.1 })

  -- No ids are not looked up.
  unfoldable pub existing : Conversation → List ℕ → Store db → List ℕ
  existing conv ids s =
      if is_empty ids then [] else retrieve_existed_ids db.users conv.organization_id ids s.users

  -- None where nobody was left, and the conversation was deleted.
  unfoldable pub update_members :
      Config → Conversation → Option IdChanges → Action (Store db) (Option Conversation)
  update_members cfg conv none = return (some conv)
  update_members cfg conv (some c) = do
    add ← read (existing conv c.add)
    remove ← read (existing conv c.remove)
    updated ← update_participants db cfg conv add remove
    return (if updated.1.is_empty_and_deleted then none else some updated.1.conversation)

  unfoldable pub update_admins : ℕ → Option IdChanges → Store db → Store db
  update_admins cid none s = s
  update_admins cid (some c) s =
      let s1 = if is_empty c.add then s else participants_add_admin_role db cid c.add s in
      if is_empty c.remove then s1 else participants_remove_admin_role db cid c.remove s1

  unfoldable pub finish_edit :
      Option IdChanges → Option Conversation → Action (Store db) (Option Conversation)
  finish_edit admins none = return none
  finish_edit admins (some conv) = do write (update_admins conv.id admins); return (some conv)

  unfoldable pub edit_members :
      Config → Conversation → EditParams → Action (Store db) (Option Conversation)
  edit_members cfg conv params = do
    new_admins ← read (existing conv (added_ids params.admins))
    left ← update_members cfg conv (with_admins params.fields.participants new_admins)
    finish_edit params.admins left

  -- The conversation of the answer, or none where it was deleted.
  unfoldable pub edit_conversation :
      Config → ℕ → ℕ → ℕ → EditParams → Action (Store db) (Option Conversation)
  edit_conversation cfg org uid cid params = do
    check_edit_access org cid uid
    found ← update_fields cid params.fields
    conv ← require_some found type_error
    if is_private conv.kind then return (some conv) else edit_members cfg conv params

  unfoldable pub get_conversation_details : ℕ → ℕ → ℕ → Action (Store db) Conversation
  get_conversation_details org cid uid = do
    access ← read (has_access_to_conversation db org cid uid)
    conv ← require_some access.conversation bad_request
    require access.as_participant participant_not_found
    return conv

  unfoldable pub delete_conversation : ℕ → ℕ → ℕ → Action (Store db) (Unit {0})
  delete_conversation org uid cid = do
    conv ← get_conversation_details org cid uid
    _ ← remove_participants db conv (uid ∷ [])
    return tt
