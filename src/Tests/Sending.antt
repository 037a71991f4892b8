-- ===== src/Tests/Sending.antt =====
-- 2 writes in a private conversation that 1 has left; its handler replaces the text.
use sama_server.Prelude.{
  ℕ, ◌+◌, ◌≡◌, ◌≤◌, refl, true, false, ◌==◌, ◌||◌, Bool, [], ◌∷◌, some, none, arith, if◌then◌else◌,
}
use sama_server.Errors.{ok, err, message_blocked_by_handler}
use sama_server.Store.{User, private, owner, plain, Message, Conversation, Store}
use sama_server.Conversation.{has_access_to_conversation}
use sama_server.Conversation.Members.{membership, IsSound}
use sama_server.Operations.MessageCreate.Storing.{
  MessageParams, text_body, Compiled, insert_message, find_by_login, process_handler_result,
  run_handler, restore_participants, insert_answer, store_message, create_message,
}
use sama_server.Operations.MessageCreate.Stored.{create_message_lem}
use sama_server.Tests.Samples.{in_memory, config, news, participant, sample, code}

abbrev user : ℕ → User
user uid = record { id = uid; organization_id = 9; login = "u"; recent_activity = 0 }

abbrev talk : Conversation
talk = record news { id = 8; kind = private; opponent_id = some 2 }

abbrev left : Store in_memory
left = record sample {
  users = user 1 ∷ user 2 ∷ [];
  participants = record (participant 2 plain) { conversation_id = 8 } ∷ [];
  conversations = talk ∷ [];
}

left-IsSound : IsSound in_memory talk left
left-IsSound = record {
  stored = λ p. ground arith;
  unique = λ uid. ground arith;
  counted = λ c. absurd (cc c);
  owned = λ q. absurd (q refl);
}

abbrev words : MessageParams
words = record { body = some "hello"; replied_message_id = none }

abbrev replacing : Compiled
replacing = record {
  rejected = false;
  accept = false;
  body = text_body "hi";
  attachments = [];
  is_replace_body = true;
}

abbrev greeting : Message
greeting = record {
  id = 0;
  organization_id = 9;
  cid = 8;
  from = 2;
  t = 5;
  body = some "hi";
  replied_message_id = none;
  deleted_for = [];
  created_at = 500;
  updated_at = 500;
}

abbrev greeted : Store in_memory
greeted = record left {
  participants =
      record (participant 1 owner) { conversation_id = 8 }
      ∷ record (participant 2 plain) { conversation_id = 8 }
      ∷ [];
  conversations = record talk { updated_at = 500 } ∷ [];
  messages = greeting ∷ [];
}

greet :
    create_message in_memory config "bot" (some replacing) 9 2 8 words 5 500 left
    ≡ (ok greeting, greeted)
unfolding code insert_message find_by_login process_handler_result run_handler restore_participants
    insert_answer store_message create_message
greet = refl

rejected :
    create_message in_memory config "bot"
      (some (record replacing { rejected = true }))
      9
      2
      8
      words
      5
      500
      left
    ≡ (err message_blocked_by_handler, left)
unfolding code run_handler create_message
rejected = refl

access : (has_access_to_conversation in_memory 9 8 2 left).conversation ≡ some talk
unfolding code
access = refl

create_message_lem_example :
    ((greeting.from ≡ 2) × (greeting.cid ≡ 8))
    × (((p : Message → Bool)
          → 0 + (if p greeting then 1 else 0) ≤ in_memory.messages.count p greeted.messages)
        × (((conv : Conversation) × ((conv.id ≡ 8) × IsSound in_memory conv greeted))
            × ((w : ℕ)
                → membership in_memory 8 w greeted
                  ≡ (if 1 == w || 2 == w then 1 else membership in_memory 8 w left))))
create_message_lem_example =
    create_message_lem in_memory config "bot" (some replacing) 9 2 8 words 5 500 talk left greeted
      greeting access left-IsSound greet
