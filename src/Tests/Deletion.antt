-- ===== src/Tests/Deletion.antt =====
-- Access to the sample channel, and the deletion of its messages.
use sama_server.Prelude.{
  ℕ, ◌||◌, ◌==◌, ◌≡◌, refl, Bool, true, false, [], ◌∷◌, arith, none, some, List, count,
}
use sama_server.Errors.{ok}
use sama_server.Store.{channel, Message, Store}
use sama_server.Repositories.Conversations.{exists}
use sama_server.Conversation.{has_access_to_conversation}
use sama_server.Conversation.Rights.{has_access_lem}
use sama_server.Repositories.Messages.{in_scope, is_visible, find_message_by_id}
use sama_server.Messages.Scope.{HasUniqueIds}
use sama_server.Operations.MessageDelete.{DeleteParams, Deleted, delete_messages}
use sama_server.Operations.MessageDelete.Effect.{may_moderate, delete_messages-out_of_reach}
use sama_server.Operations.MessageDelete.Complete.{delete_messages_removed}
use sama_server.Operations.MessageDelete.Hidden.{delete_messages_hidden}
use sama_server.Tests.Samples.{in_memory, sample, code}

abbrev pub message : ℕ → ℕ → List ℕ → Message
message mid author hidden = record {
  id = mid;
  organization_id = 9;
  cid = 7;
  from = author;
  t = 100;
  body = some "hello";
  replied_message_id = none;
  deleted_for = hidden;
  created_at = 100;
  updated_at = 100;
}

-- 2 has written 11 and 12, and 3 has written 13.
abbrev pub chat : Store in_memory
chat = record sample { messages = message 11 2 [] ∷ message 12 2 [] ∷ message 13 3 [] ∷ [] }

pub chat-HasUniqueIds : HasUniqueIds in_memory chat
chat-HasUniqueIds = λ k. ground arith

has_access_lem_example :
    (exists (has_access_to_conversation in_memory 9 7 2 chat).conversation ≡ true)
    × ((has_access_to_conversation in_memory 9 7 2 chat).as_participant ≡ true)
    × ((has_access_to_conversation in_memory 9 7 2 chat).as_owner ≡ false)
    × ((has_access_to_conversation in_memory 9 7 2 chat).as_admin ≡ false)
has_access_lem_example = has_access_lem in_memory 9 7 2 chat (omega arith) (omega arith)

abbrev request : Bool → List ℕ → DeleteParams
request for_all ids = record { cid = 7; ids = ids; for_all = for_all }

not_removed :
    (m : Message)
    → in_scope (11 ∷ 13 ∷ []) 7 9 m ≡ true
    → true ≡ true
    → (may_moderate in_memory 9 7 2 chat || m.from == 2) ≡ true
    → (m.from == 3) ≡ false
not_removed m h e may = ground arith

delete_messages-out_of_reach_example :
    count
      (λ m. m.from == 3)
      (delete_messages in_memory 9 2 (request true (11 ∷ 13 ∷ [])) chat).1.messages
    ≡ 1
delete_messages-out_of_reach_example =
    delete_messages-out_of_reach in_memory 9 2 (request true (11 ∷ 13 ∷ [])) (λ m. m.from == 3) chat
      not_removed (λ m hidden h e. refl)

abbrev removed : Store in_memory
removed = record chat { messages = message 12 2 [] ∷ message 13 3 [] ∷ [] }

abbrev removed_report : Deleted
removed_report = record {
  conversation_id = 7;
  participants_ids = none;
  deleted_messages = some (record { ids = 11 ∷ []; cid = 7; c_type = channel; from = 2 });
}

remove : delete_messages in_memory 9 2 (request true (11 ∷ [])) chat ≡ (ok removed_report, removed)
unfolding code
remove = refl

delete_messages_removed_example : count (in_scope (11 ∷ []) 7 9) removed.messages ≡ 0
delete_messages_removed_example =
    delete_messages_removed in_memory 9 2 (request true (11 ∷ [])) chat removed removed_report
      chat-HasUniqueIds refl remove

abbrev hidden : Store in_memory
hidden = record chat { messages = message 11 2 [] ∷ message 12 2 [] ∷ message 13 3 (2 ∷ []) ∷ [] }

abbrev hidden_report : Deleted
hidden_report = record { conversation_id = 7; participants_ids = none; deleted_messages = none }

hide : delete_messages in_memory 9 2 (request false (13 ∷ [])) chat ≡ (ok hidden_report, hidden)
unfolding code
hide = refl

delete_messages_hidden_example :
    (find_message_by_id in_memory.messages 7 2 13 hidden.messages ≡ none)
    × (count (is_visible 7 3 13) hidden.messages ≡ count (is_visible 7 3 13) chat.messages)
delete_messages_hidden_example =
    delete_messages_hidden in_memory 9 2 13 3 (request false (13 ∷ [])) chat hidden hidden_report
      chat-HasUniqueIds refl hide refl refl
