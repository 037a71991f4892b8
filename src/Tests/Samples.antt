-- ===== src/Tests/Samples.antt =====
-- A small database: one channel with its owner 1 and the subscribers 2 and 3.
use sama_server.Prelude.{ℕ, refl, false, List, [], ◌∷◌, none, some, arith, length}
use sama_server.Prelude.Int.{pos}
use sama_server.Mongo.Memory.{memory}
use sama_server.Store.{
  User, Role, owner, plain, Participant, channel, Conversation, BlockedUser, Message, Reaction,
  Driver, Store, Config, int,
}
use sama_server.Repositories.Participants.{
  count_conversation_participants, filter_available_conversation_ids,
  find_first_conversation_participant, add_no_existed_participants, remove_existed_participants,
  set_role,
}
use sama_server.Repositories.Conversations.{
  find_by_id_with_org_scope, find_by_ids_with_org_scope, update_subscribers_count, update_owner,
  update_last_activity, delete_by_id, find_existed_private_conversation,
}
use sama_server.Conversation.{has_access_to_conversation, add_participants, remove_participants}
use sama_server.Conversation.Removing.{settled}
use sama_server.Repositories.BlockedUsers.{
  create_many, list, blockers, enable, delete_blocked_user, delete_all_blocks,
}
use sama_server.BlockList.{
  insert_blocks, block_many, unblock, enable_blocks, list_mutual_blocked_ids, remove_all_blocks,
}
use sama_server.Repositories.Messages.{
  find_all_by_ids, find_message_by_id, delete_by_ids_in_conversation, update_delete_for_user,
  find_by_id, upsert_reaction, remove_reaction,
}
use sama_server.Messages.{
  has_access_to_message, find_messages_by_ids, validate_messages_for_delete,
  delete_messages_for_everyone, hide_messages_for_user, update_reactions,
}
use sama_server.Operations.MessageDelete.{remove_found, delete_messages}
use sama_server.Conversation.Members.{IsSound}
use sama_server.Repositories.Conversations.{find_by_id as find_conversation}
use sama_server.Repositories.Messages.{update_body}
use sama_server.Repositories.Users.{update_activity}
use sama_server.Messages.{access_to}
use sama_server.Activity.{
  add_subscribe_target, delete_subscribe_target, add_subscriber, delete_subscriber,
  unsubscribe_observer, subscribe_observer_to_target, update_user_activity,
}
use sama_server.Operations.MessageEdit.{edit_message}
use sama_server.Operations.MessageCreate.{check_message}
use sama_server.Operations.ReactionsUpdate.{update_message_reactions}
use sama_server.Operations.Subscription.{subscribe_unsubscribe}
use sama_server.Repositories.Users.{find_user, retrieve_existed_ids}
use sama_server.Conversation.{restore_private_conversation}
use sama_server.Conversation.Creation.{create}
use sama_server.Operations.ConversationCreate.{create_conversation}

-- A test that unfolds this name runs the repositories and services.
unfoldable pub code : Unit {0}
unfolding count_conversation_participants filter_available_conversation_ids
    find_first_conversation_participant add_no_existed_participants remove_existed_participants
    set_role find_by_id_with_org_scope find_by_ids_with_org_scope update_subscribers_count
    update_owner update_last_activity delete_by_id find_existed_private_conversation
    has_access_to_conversation add_participants remove_participants settled create_many list
    blockers enable delete_blocked_user delete_all_blocks insert_blocks block_many unblock
    enable_blocks list_mutual_blocked_ids remove_all_blocks find_all_by_ids find_message_by_id
    delete_by_ids_in_conversation update_delete_for_user find_by_id upsert_reaction remove_reaction
    has_access_to_message find_messages_by_ids validate_messages_for_delete
    delete_messages_for_everyone hide_messages_for_user update_reactions remove_found
    delete_messages find_conversation update_body update_activity access_to add_subscribe_target
    delete_subscribe_target add_subscriber delete_subscriber unsubscribe_observer
    subscribe_observer_to_target update_user_activity edit_message check_message
    update_message_reactions subscribe_unsubscribe find_user retrieve_existed_ids
    restore_private_conversation create create_conversation
code = tt

abbrev pub in_memory : Driver
in_memory = record {
  Users = List User;
  Participants = List Participant;
  Conversations = List Conversation;
  BlockedUsers = List BlockedUser;
  Messages = List Message;
  Reactions = List Reaction;
  users = memory length;
  participants = memory length;
  conversations = memory length;
  blocked_users = memory length;
  messages = memory length;
  reactions = memory length;
}

abbrev pub config : Config
config = record { disable_channels_logic = false; max_participants = 5 }

abbrev pub news : Conversation
news = record {
  id = 7;
  organization_id = 9;
  kind = channel;
  name = some "news";
  description = none;
  image_object = none;
  is_encrypted = none;
  owner_id = 1;
  opponent_id = none;
  subscribers_count = int (pos 3);
  updated_at = 100;
  participants = none;
}

abbrev pub participant : ℕ → Role → Participant
participant uid role = record {
  conversation_id = 7;
  user_id = uid;
  organization_id = 9;
  role = role;
}

abbrev pub sample : Store in_memory
sample = record {
  users = [];
  participants = participant 1 owner ∷ participant 2 plain ∷ participant 3 plain ∷ [];
  conversations = news ∷ [];
  blocked_users = [];
  messages = [];
  reactions = [];
}

pub sample-IsSound : IsSound in_memory news sample
sample-IsSound = record {
  stored = λ p. ground arith;
  unique = λ uid. ground arith;
  counted = λ _. refl;
  owned = λ _. omega arith;
}
