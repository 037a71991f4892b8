-- ===== src/Tests/Members.antt =====
-- Adding and removing participants of the sample channel.
use sama_server.Prelude.{
  ℕ, ◌+◌, ◌==◌, ◌≡◌, ◌<◌, ◌≤◌, ◌↔◌, refl, false, [], ◌∷◌, some, count, includes, ltb, if◌then◌else◌,
  ◌&&◌,
}
use sama_server.Prelude.Int.{pos}
use sama_server.Errors.{ok, err, participants_limit}
use sama_server.Store.{owner, plain, Conversation, Store, int}
use sama_server.Conversation.{Removal, add_participants, remove_participants}
use sama_server.Conversation.Members.{members, membership, IsSound}
use sama_server.Conversation.Adding.{
  add_participants-IsSound, add_participants-members, add_participants_refused,
}
use sama_server.Conversation.Removing.{
  settled, remove_participants-IsSound, remove_participants-members,
}
use sama_server.Tests.Samples.{in_memory, config, news, participant, sample, sample-IsSound, code}

-- 3 is asked for again and 4 is new.
abbrev joined_news : Conversation
joined_news = record news { subscribers_count = int (pos 4) }

abbrev joined : Store in_memory
joined = record sample {
  participants =
      participant 4 plain ∷ participant 1 owner ∷ participant 2 plain ∷ participant 3 plain ∷ [];
  conversations = joined_news ∷ [];
}

join :
    add_participants in_memory config news (3 ∷ 4 ∷ []) false sample
    ≡ (ok (4 ∷ [], joined_news), joined)
unfolding code
join = refl

add_participants-IsSound_example : IsSound in_memory joined_news joined
add_participants-IsSound_example =
    add_participants-IsSound in_memory config news (3 ∷ 4 ∷ []) sample joined (4 ∷ []) joined_news
      sample-IsSound join

add_participants-members_example :
    (members in_memory 7 joined ≤ 5)
    × (members in_memory 7 joined ≡ 4)
    × ((uid : ℕ)
        → (membership in_memory 7 uid joined ≡ (
            if membership in_memory 7 uid sample == 0 && includes uid (3 ∷ 4 ∷ [])
            then 1
            else membership in_memory 7 uid sample))
          × (count (λ x. x == uid) (4 ∷ []) ≡ (
              if membership in_memory 7 uid sample == 0 && includes uid (3 ∷ 4 ∷ [])
              then 1
              else 0)))
add_participants-members_example =
    add_participants-members in_memory config news (3 ∷ 4 ∷ []) sample joined (4 ∷ []) joined_news
      sample-IsSound join

add_participants_refused_example :
    (add_participants in_memory config news (3 ∷ 4 ∷ 5 ∷ []) false sample
      ≡ (err participants_limit, sample))
    ↔ (5 < 3 + 3)
add_participants_refused_example =
    add_participants_refused in_memory config news (3 ∷ 4 ∷ 5 ∷ []) sample sample-IsSound

-- The owner 1 leaves, and 2 takes over.
abbrev left_news : Conversation
left_news = record news { subscribers_count = int (pos 2) }

abbrev left : Store in_memory
left = record sample {
  participants = participant 2 plain ∷ participant 3 plain ∷ [];
  conversations = record left_news { owner_id = 2 } ∷ [];
}

abbrev removal : Removal
removal = record {
  removed_ids = 1 ∷ [];
  new_owner_id = some 2;
  is_empty_and_deleted = false;
  conversation = left_news;
}

leave : remove_participants in_memory news (1 ∷ 8 ∷ []) sample ≡ (ok removal, left)
unfolding code
leave = refl

remove_participants-IsSound_example : IsSound in_memory (settled removal) left
remove_participants-IsSound_example =
    remove_participants-IsSound in_memory news (1 ∷ 8 ∷ []) sample left removal sample-IsSound leave
      refl

remove_participants-members_example :
    (members in_memory 7 left + 1 ≡ 3)
    × (false ≡ (members in_memory 7 left == 0))
    × ((uid : ℕ)
        → (membership in_memory 7 uid left
            ≡ (if includes uid (1 ∷ 8 ∷ []) then 0 else membership in_memory 7 uid sample))
          × (count (λ x. x == uid) (1 ∷ []) ≡ (
              if ltb 0 (membership in_memory 7 uid sample) && includes uid (1 ∷ 8 ∷ [])
              then 1
              else 0)))
remove_participants-members_example =
    remove_participants-members in_memory news (1 ∷ 8 ∷ []) sample left removal sample-IsSound leave
