-- ===== src/Conversation.antt =====
-- app/providers/services/conversation/index.js: who may do what in a conversation, and how its
-- participants, its owner and its subscribers counter change.
pub mod Creation
pub mod Stored
pub mod Members
pub mod Roles
pub mod Reported
pub mod Rights
pub mod Adding
pub mod Removing
use sama_server.Prelude.{
  ℕ, ◌==◌, Bool, true, false, not, ◌&&◌, List, [], ◌∷◌, map, Option, none, some, if◌then◌else◌,
  includes, length, filter, is_empty, ◌++◌,
}
use sama_server.Prelude.Int.{pos}
use sama_server.Errors.{
  Action, ◌>>=◌, ◌>>◌, bind, return, read, write, require, require_some, ok, err,
  participants_limit, bad_request, forbidden, throw, type_error,
}
use sama_server.Store.{
  Role, owner, admin, plain, Kind, private, group, channel, Participant, Conversation, Driver,
  Store, Config, Count, unset, int, plus, minus, exceeds,
}
use sama_server.Repositories.Participants.{
  find_first_conversation_participant, count_conversation_participants, add_no_existed_participants,
  remove_existed_participants, same_role, filter_available_conversation_ids, add_admin_role,
  remove_admin_role,
}
use sama_server.Repositories.Conversations.{
  find_by_id_with_org_scope, find_by_ids_with_org_scope, update_subscribers_count, update_owner,
  delete_by_id, is_channel, is_private,
}

pub record Access : Type 0 where
  pub conversation : Option Conversation
  pub as_participant : Bool
  pub as_owner : Bool
  pub as_admin : Bool

abbrev pub access_of : ℕ → Conversation → Option Participant → Access
access_of uid conv none = record {
  conversation = some conv;
  as_participant = false;
  as_owner = conv.owner_id == uid;
  as_admin = false;
}
access_of uid conv (some p) = record {
  conversation = some conv;
  as_participant = true;
  as_owner = conv.owner_id == uid;
  as_admin = same_role p.role admin;
}

pub record Removal : Type 0 where
  pub removed_ids : List ℕ
  pub new_owner_id : Option ℕ
  pub is_empty_and_deleted : Bool
  -- the conversation object, which the function changes in place
  pub conversation : Conversation

module _ (db : Driver) where
  unfoldable pub has_access_to_conversation : ℕ → ℕ → ℕ → Store db → Access
  has_access_to_conversation org cid uid s =
      elim (find_by_id_with_org_scope db.conversations org cid s.conversations) [
        | none ↦ record {
          conversation = none;
          as_participant = false;
          as_owner = false;
          as_admin = false;
        }
        | some conv ↦
            access_of uid conv
              (find_first_conversation_participant db.participants cid (some uid) s.participants)
      ]

  pub participant_of : Conversation → ℕ → Participant
  participant_of conv uid = record {
    conversation_id = conv.id;
    user_id = uid;
    organization_id = conv.organization_id;
    role = if uid == conv.owner_id then owner else plain;
  }

  -- `isEmpty` says that the conversation has no participants yet.
  pub current_count : Conversation → Bool → Store db → Count
  current_count conv is_empty s =
      if is_empty
      then int (pos 0)
      else if is_channel conv.kind
      then conv.subscribers_count
      else int (pos (count_conversation_participants db.participants conv.id [] s.participants))

  set_subscribers_count : Conversation → Count → Action (Store db) Conversation
  set_subscribers_count conv n s =
      if is_channel conv.kind
      then (
        ok (record conv { subscribers_count = n }),
        record s {
          conversations = update_subscribers_count db.conversations conv.id n s.conversations;
        },
      )
      else (ok conv, s)

  insert_participants : Conversation → List ℕ → Action (Store db) (List ℕ)
  unfolding participant_of
  insert_participants conv uids s =
      let r =
        add_no_existed_participants db.participants conv.id (map (participant_of conv) uids)
          s.participants in
      (ok r.0, record s { participants = r.1 })

  -- The ids that were added, and the conversation object, which the function changes in place.
  unfoldable pub add_participants :
      Config → Conversation → List ℕ → Bool → Action (Store db) (List ℕ × Conversation)
  unfolding current_count set_subscribers_count insert_participants
  add_participants cfg conv uids is_empty = do
    current ← read (current_count conv is_empty)
    require (not (exceeds (plus current (length uids)) cfg.max_participants)) participants_limit
    added ← insert_participants conv uids
    conv' ← set_subscribers_count conv (plus current (length added))
    return (added, conv')

  remove_ids : ℕ → List ℕ → Action (Store db) (List ℕ)
  remove_ids cid uids s =
      let r = remove_existed_participants db.participants cid uids s.participants in
      (ok r.0, record s { participants = r.1 })

  -- A removed owner hands over to the first participant that is left, but in a private conversation.
  hand_over : Conversation → List ℕ → Participant → Action (Store db) (Option ℕ)
  hand_over conv removed first s =
      if includes conv.owner_id removed && not (is_private conv.kind)
      then (
        ok (some first.user_id),
        record s {
          conversations = update_owner db.conversations conv.id first.user_id s.conversations;
        },
      )
      else (ok none, s)

  -- What is left to do when nobody is left, or `first` is.
  settle : Conversation → List ℕ → Option Participant → Action (Store db) Removal
  unfolding hand_over set_subscribers_count
  settle conv removed none = do
    write (λ s. record s { conversations = delete_by_id db.conversations conv.id s.conversations })
    return (record {
      removed_ids = removed;
      new_owner_id = none;
      is_empty_and_deleted = true;
      conversation = conv;
    })
  settle conv removed (some first) = do
    new_owner ← hand_over conv removed first
    conv' ← set_subscribers_count conv (minus conv.subscribers_count (length removed))
    return (record {
      removed_ids = removed;
      new_owner_id = new_owner;
      is_empty_and_deleted = false;
      conversation = conv';
    })

  unfoldable pub remove_participants : Conversation → List ℕ → Action (Store db) Removal
  unfolding remove_ids settle
  remove_participants conv uids = do
    removed ← remove_ids conv.id uids
    first ←
        read (λ s. find_first_conversation_participant db.participants conv.id none s.participants)
    settle conv removed first

  unfoldable pub update_participants :
      Config → Conversation → List ℕ → List ℕ → Action (Store db) (List ℕ × Removal)
  update_participants cfg conv add remove = do
    added ← add_participants cfg conv add false
    removal ← remove_participants added.1 remove
    return (added.0, removal)

  -- An undefined opponent passes the limit check as an id, and fails when its owner role is asked.
  restore_without_opponent : Config → Conversation → Action (Store db) (List ℕ × Conversation)
  restore_without_opponent cfg conv = do
    current ← read (current_count conv false)
    require (not (exceeds (plus current 2) cfg.max_participants)) participants_limit
    throw type_error

  unfoldable pub restore_private_conversation :
      Config → Conversation → Action (Store db) (List ℕ × Conversation)
  unfolding restore_without_opponent current_count
  restore_private_conversation cfg conv = elim conv.opponent_id [
    | none ↦ restore_without_opponent cfg conv
    | some opponent ↦ add_participants cfg conv (conv.owner_id ∷ opponent ∷ []) false
  ]

  unfoldable pub validate_access_to_conversation : ℕ → ℕ → ℕ → Action (Store db) (Unit {0})
  validate_access_to_conversation org cid uid = do
    access ← read (has_access_to_conversation org cid uid)
    _ ← require_some access.conversation bad_request
    require access.as_owner forbidden

  unfoldable pub validate_conv_ids_which_user_has_access_as_admin :
      ℕ → List ℕ → ℕ → Store db → List Conversation
  validate_conv_ids_which_user_has_access_as_admin org cids uid s =
      let conversations = find_by_ids_with_org_scope db.conversations org cids s.conversations in
      let as_owner = filter (λ d. d.owner_id == uid) conversations in
      let left = filter (λ d. not (d.owner_id == uid)) conversations in
      let verified =
        filter_available_conversation_ids db.participants (map (λ d. d.id) left) uid (some admin)
          s.participants in
      if is_empty left then as_owner else as_owner ++ filter (λ d. includes d.id verified) left

  unfoldable pub participants_add_admin_role : ℕ → List ℕ → Store db → Store db
  participants_add_admin_role cid uids s = record s {
    participants = add_admin_role db.participants cid uids s.participants;
  }

  unfoldable pub participants_remove_admin_role : ℕ → List ℕ → Store db → Store db
  participants_remove_admin_role cid uids s = record s {
    participants = remove_admin_role db.participants cid uids s.participants;
  }
