-- ===== src/Tests/Channels.antt =====
-- Subscribing to the sample channel, and leaving it.
use sama_server.Prelude.{some, ℕ, ◌==◌, ◌≡◌, ◌≤◌, ◌⊎◌, refl, [], ◌∷◌, if◌then◌else◌}
use sama_server.Prelude.Int.{pos}
use sama_server.Errors.{ok, err, bad_request}
use sama_server.Store.{owner, plain, Conversation, Store, int}
use sama_server.Repositories.Conversations.{find_by_id_with_org_scope}
use sama_server.Conversation.Members.{members, membership, IsSound}
use sama_server.Operations.Subscription.{subscribing, unsubscribing, subscribe_unsubscribe}
use sama_server.Operations.Subscription.Effect.{subscribe_lem, unsubscribe_lem}
use sama_server.Tests.Samples.{in_memory, config, news, participant, sample, sample-IsSound, code}

abbrev with_4 : Store in_memory
with_4 = record sample {
  participants = participant 4 plain ∷ sample.participants;
  conversations = record news { subscribers_count = int (pos 4) } ∷ [];
}

subscribe : subscribe_unsubscribe in_memory config 9 4 subscribing 7 sample ≡ (ok tt, with_4)
unfolding code
subscribe = refl

no_channel :
    subscribe_unsubscribe in_memory config 9 4 subscribing 6 sample ≡ (err bad_request, sample)
unfolding code
no_channel = refl

found : find_by_id_with_org_scope in_memory.conversations 9 7 sample.conversations ≡ some news
unfolding code
found = refl

subscribe_lem_example :
    ((v : ℕ)
      → membership in_memory 7 v with_4 ≡ (if v == 4 then 1 else membership in_memory 7 v sample))
    × (members in_memory 7 with_4 ≤ 5)
    × ((conv : Conversation) × ((conv.id ≡ 7) × IsSound in_memory conv with_4))
subscribe_lem_example =
    subscribe_lem in_memory config 9 4 7 sample with_4 news found sample-IsSound subscribe

abbrev without_2 : Store in_memory
without_2 = record sample {
  participants = participant 1 owner ∷ participant 3 plain ∷ [];
  conversations = record news { subscribers_count = int (pos 2) } ∷ [];
}

unsubscribe : subscribe_unsubscribe in_memory config 9 2 unsubscribing 7 sample ≡ (ok tt, without_2)
unfolding code
unsubscribe = refl

unsubscribe_lem_example :
    ((v : ℕ)
      → membership in_memory 7 v without_2
        ≡ (if v == 2 then 0 else membership in_memory 7 v sample))
    × ((members in_memory 7 without_2 ≡ 0)
        ⊎ ((conv : Conversation) × ((conv.id ≡ 7) × IsSound in_memory conv without_2)))
unsubscribe_lem_example =
    unsubscribe_lem in_memory config 9 2 7 sample without_2 news found sample-IsSound unsubscribe
