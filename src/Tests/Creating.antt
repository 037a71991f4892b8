-- ===== src/Tests/Creating.antt =====
-- Creating a group of three users in an empty database.
use sama_server.Prelude.{
  ℕ, ◌==◌, ◌≡◌, refl, ◌&&◌, ◌||◌, [], ◌∷◌, none, some, if◌then◌else◌, includes,
}
use sama_server.Errors.{ok, err, participants_limit, participants_not_provided}
use sama_server.Store.{User, group, owner, plain, Role, Conversation, Participant, Store, unset}
use sama_server.Repositories.Users.{find_user}
use sama_server.Conversation.Members.{membership, IsSound}
use sama_server.Conversation.Creation.{ConversationParams}
use sama_server.Operations.ConversationCreate.{create_conversation}
use sama_server.Operations.ConversationCreate.Effect.{create_conversation-IsSound, is_user}
use sama_server.Tests.Samples.{in_memory, config, participant, sample, code}

abbrev user : ℕ → User
user uid = record { id = uid; organization_id = 9; login = "user"; recent_activity = 0 }

abbrev nobody_yet : Store in_memory
nobody_yet = record sample {
  users = user 1 ∷ user 2 ∷ user 3 ∷ [];
  participants = [];
  conversations = [];
}

abbrev params : ConversationParams
params = record {
  kind = group;
  name = some "friends";
  description = none;
  image_object = none;
  is_encrypted = none;
  opponent_id = none;
}

abbrev friends : Conversation
friends = record {
  id = 0;
  organization_id = 9;
  kind = group;
  name = some "friends";
  description = none;
  image_object = none;
  is_encrypted = none;
  owner_id = 1;
  opponent_id = none;
  subscribers_count = unset;
  updated_at = 50;
  participants = none;
}

abbrev friend : ℕ → Role → Participant
friend uid role = record (participant uid role) { conversation_id = 0 }

abbrev founded : Store in_memory
founded = record nobody_yet {
  participants = friend 1 owner ∷ friend 3 plain ∷ friend 2 plain ∷ [];
  conversations = friends ∷ [];
}

found_friends :
    create_conversation in_memory config 9 1 params (2 ∷ 3 ∷ 4 ∷ []) 50 nobody_yet
    ≡ (ok friends, founded)
unfolding code
found_friends = refl

alone :
    create_conversation in_memory config 9 1 params (4 ∷ []) 50 nobody_yet
    ≡ (err participants_not_provided, nobody_yet)
unfolding code
alone = refl

-- The limit is asked for after the conversation is stored, which stays with no participants.
left_over :
    create_conversation in_memory
      (record config { max_participants = 2 })
      9
      1
      params
      (2 ∷ 3 ∷ [])
      50
      nobody_yet
    ≡ (err participants_limit, record nobody_yet { conversations = friends ∷ [] })
unfolding code
left_over = refl

known : find_user in_memory.users 1 nobody_yet.users ≡ some (user 1)
unfolding code
known = refl

create_conversation-IsSound_example :
    IsSound in_memory friends founded
    × ((v : ℕ)
        → membership in_memory 0 v founded ≡ (
            if 1 == v || (includes v (2 ∷ 3 ∷ 4 ∷ []) && is_user in_memory 9 v nobody_yet)
            then 1
            else 0))
create_conversation-IsSound_example =
    create_conversation-IsSound in_memory config 9 1 (user 1) params (2 ∷ 3 ∷ 4 ∷ []) 50 nobody_yet
      founded friends known refl (refl, refl) found_friends
