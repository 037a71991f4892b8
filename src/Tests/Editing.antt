-- ===== src/Tests/Editing.antt =====
-- The owner of the sample channel renames it, makes 2 an admin and removes 3.
use sama_server.Prelude.{ℕ, ◌≡◌, ◌⊎◌, ◌==◌, refl, true, [], ◌∷◌, some, none, arith, if◌then◌else◌}
use sama_server.Prelude.Int.{pos}
use sama_server.Errors.{ok, err, forbidden}
use sama_server.Store.{User, owner, admin, plain, Conversation, Store, int}
use sama_server.Repositories.Conversations.{find_by_id, update}
use sama_server.Conversation.{
  has_access_to_conversation, update_participants, participants_add_admin_role,
  participants_remove_admin_role,
}
use sama_server.Repositories.Participants.{add_admin_role, remove_admin_role}
use sama_server.Conversation.Members.{members, membership, IsSound}
use sama_server.Operations.ConversationEdit.{
  EditParams, edit_conversation, check_edit_access, update_fields, existing, update_members,
  update_admins, finish_edit, edit_members, delete_conversation, get_conversation_details,
}
use sama_server.Operations.ConversationEdit.Leaving.{delete_conversation_lem}
use sama_server.Operations.ConversationEdit.Allowed.{may_edit, edit_conversation_allowed}
use sama_server.Operations.ConversationEdit.Effect.{edit_conversation-IsSound}
use sama_server.Tests.Samples.{in_memory, config, news, participant, sample, code}

abbrev user : ℕ → User
user uid = record { id = uid; organization_id = 9; login = "u"; recent_activity = 0 }

abbrev readers : Store in_memory
readers = record sample { users = user 1 ∷ user 2 ∷ user 3 ∷ [] }

readers-IsSound : IsSound in_memory news readers
readers-IsSound = record {
  stored = λ p. ground arith;
  unique = λ uid. ground arith;
  counted = λ _. refl;
  owned = λ _. omega arith;
}

abbrev changes : EditParams
changes = record {
  fields = record {
    name = some "daily";
    description = none;
    image_object = none;
    participants = some (record { add = []; remove = 3 ∷ [] });
  };
  admins = some (record { add = 2 ∷ []; remove = [] });
}

abbrev daily : Conversation
daily = record news {
  name = some "daily";
  subscribers_count = int (pos 2);
  participants = some (record { add = []; remove = 3 ∷ [] });
}

abbrev edited : Store in_memory
edited = record readers {
  participants = participant 1 owner ∷ participant 2 admin ∷ [];
  conversations = daily ∷ [];
}

edit : edit_conversation in_memory config 9 1 7 changes readers ≡ (ok (some daily), edited)
unfolding code edit_conversation check_edit_access update_fields existing update_members
    update_admins finish_edit edit_members update update_participants participants_add_admin_role
    participants_remove_admin_role add_admin_role remove_admin_role
edit = refl

refused : edit_conversation in_memory config 9 2 7 changes readers ≡ (err forbidden, readers)
unfolding code edit_conversation check_edit_access
refused = refl

found : find_by_id in_memory.conversations 7 readers.conversations ≡ some news
unfolding find_by_id
found = refl

edit_conversation-IsSound_example :
    (members in_memory 7 edited ≡ 0)
    ⊎ ((conv : Conversation) × ((conv.id ≡ 7) × IsSound in_memory conv edited))
edit_conversation-IsSound_example =
    edit_conversation-IsSound in_memory config 9 1 changes news readers edited (some daily) found
      readers-IsSound edit

edit_conversation_allowed_example : may_edit in_memory 9 7 1 readers ≡ true
edit_conversation_allowed_example =
    edit_conversation_allowed in_memory config 9 1 7 changes readers edited (some daily) edit

-- 2 deletes the channel, and is gone from it.
abbrev deleted_for_2 : Store in_memory
deleted_for_2 = record readers {
  participants = participant 1 owner ∷ participant 3 plain ∷ [];
  conversations = record news { subscribers_count = int (pos 2) } ∷ [];
}

delete : delete_conversation in_memory 9 2 7 readers ≡ (ok tt, deleted_for_2)
unfolding code delete_conversation get_conversation_details
delete = refl

access : (has_access_to_conversation in_memory 9 7 2 readers).conversation ≡ some news
unfolding code
access = refl

delete_conversation_lem_example :
    ((v : ℕ)
      → membership in_memory 7 v deleted_for_2
        ≡ (if v == 2 then 0 else membership in_memory 7 v readers))
    × ((members in_memory 7 deleted_for_2 ≡ 0)
        ⊎ ((conv : Conversation) × ((conv.id ≡ 7) × IsSound in_memory conv deleted_for_2)))
delete_conversation_lem_example =
    delete_conversation_lem in_memory 9 2 7 news readers deleted_for_2 access readers-IsSound delete
