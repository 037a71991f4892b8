-- ===== src/Tests/Writing.antt =====
-- Editing a message, reacting to it, and writing to a user who blocked the caller.
use sama_server.Prelude.{ℕ, ◌==◌, ◌≡◌, refl, Bool, false, [], ◌∷◌, arith, some, count}
use sama_server.Store.{Store, Conversation, Participant, private, plain}
use sama_server.BlockList.{block_of}
use sama_server.Operations.MessageEdit.{edit_message}
use sama_server.Operations.MessageEdit.Effect.{edit_message-others}
use sama_server.Operations.ReactionsUpdate.{ReactionParams, update_message_reactions}
use sama_server.Operations.ReactionsUpdate.Effect.{
  reacted, HasUniqueReactions, update_message_reactions-HasUniqueReactions,
  update_message_reactions-others,
}
use sama_server.Tests.Samples.{in_memory, config, news, participant, sample, code}
use sama_server.Tests.Deletion.{chat, chat-HasUniqueIds}

-- Two ids of documents are never one object.
abbrev never_same : ℕ → ℕ → Bool
never_same x y = false

edit_message-others_example :
    count
      (λ m. m.from == 3)
      (edit_message in_memory never_same 2 11 (some "hi") 200 chat).1.messages
    ≡ count (λ m. m.from == 3) chat.messages
edit_message-others_example =
    edit_message-others in_memory never_same 2 11 (some "hi") 200 (λ m. m.from == 3) chat
      chat-HasUniqueIds (λ m h. ground arith)

edited_body :
    count
      (λ m. m.updated_at == 200)
      (edit_message in_memory never_same 2 11 (some "hi") 200 chat).1.messages
    ≡ 1
unfolding code
edited_body = refl

abbrev smile : ReactionParams
smile = record { mid = 13; add = some "smile"; remove = some "sad" }

abbrev reacting : Store in_memory
reacting = record chat { reactions = reacted 13 3 "smile" ∷ reacted 13 2 "sad" ∷ [] }

reacting-HasUniqueReactions : HasUniqueReactions in_memory.reactions reacting.reactions
reacting-HasUniqueReactions = λ mid uid name. ground arith

react :
    (update_message_reactions in_memory never_same config 2 smile reacting).1.reactions
    ≡ reacted 13 2 "smile" ∷ reacted 13 3 "smile" ∷ []
unfolding code
react = refl

update_message_reactions-HasUniqueReactions_example :
    HasUniqueReactions in_memory.reactions
      (update_message_reactions in_memory never_same config 2 smile reacting).1.reactions
update_message_reactions-HasUniqueReactions_example =
    update_message_reactions-HasUniqueReactions in_memory never_same config 2 smile reacting
      reacting-HasUniqueReactions

update_message_reactions-others_example :
    count
      (λ r. r.user_id == 3)
      (update_message_reactions in_memory never_same config 2 smile reacting).1.reactions
    ≡ 1
update_message_reactions-others_example =
    update_message_reactions-others in_memory never_same config 2 smile (λ r. r.user_id == 3)
      reacting (λ name. refl)

-- 1 and 2 have a private conversation.
abbrev talk : Conversation
talk = record news { id = 8; kind = private; opponent_id = some 2 }

abbrev member : ℕ → Participant
member uid = record (participant uid plain) { conversation_id = 8 }

abbrev talking : Store in_memory
talking = record sample { participants = member 1 ∷ member 2 ∷ []; conversations = talk ∷ [] }

abbrev blocking : Store in_memory
blocking = record talking { blocked_users = block_of 9 1 2 ∷ [] }
