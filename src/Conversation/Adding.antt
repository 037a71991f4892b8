-- ===== src/Conversation/Adding.antt =====
-- What `addParticipants` does to the participants and to the counter of a conversation.
use sama_server.Prelude.{
  suc, subst, ℕ, ◌+◌, ◌==◌, ◌≡◌, refl, sym, ap, ◌∙◌, Bool, false, ◌&&◌, if◌then◌else◌, arith, ◌≤◌,
  ◌<◌, List, [], ◌∷◌, map, ◌↔◌, length, count, includes, Bool-cases, inl, inr, is_empty,
}
use sama_server.Prelude.Int.{pos}
use sama_server.Mongo.Counting.{count_ext}
use sama_server.Errors.{ok, err, participants_limit}
use sama_server.Store.{channel, Conversation, Driver, Store, Config, int}
use sama_server.Repositories.Participants.{
  add_no_existed_participants, count_conversation_participants,
}
use sama_server.Repositories.Participants.Adding.{
  AllIn, asked, count-add_conversation, length-add-le, count-add_member, count-added,
}
use sama_server.Repositories.Conversations.{update_subscribers_count, is_channel, is_channel-eq}
use sama_server.Conversation.Stored.{
  recounted_lem, recounted_same, recounted-counted, recounted-IsStored,
}
use sama_server.Conversation.Members.{members, membership, IsSound}
use sama_server.Conversation.{participant_of, current_count, add_participants}

module _ (db : Driver) where
  open db use {participants, conversations}

  pub participants-AllIn :
      (conv : Conversation) (uids : List ℕ) → AllIn conv.id (map (participant_of db conv) uids)
  unfolding participant_of
  participants-AllIn conv [] = tt
  participants-AllIn conv (x ∷ xs) = (refl, participants-AllIn conv xs)

  pub asked-participants :
      (conv : Conversation) (uid : ℕ) (uids : List ℕ)
      → asked uid (map (participant_of db conv) uids) ≡ includes uid uids
  unfolding participant_of
  asked-participants conv uid [] = refl
  asked-participants conv uid (x ∷ xs) = rw (asked-participants conv uid xs)

  length-participants :
      (conv : Conversation) (uids : List ℕ)
      → length (map (participant_of db conv) uids) ≡ length uids
  length-participants conv [] = refl
  length-participants conv (x ∷ xs) = ap suc (length-participants conv xs)

  count_all :
      (conv : Conversation) (s : Store db)
      → count_conversation_participants participants conv.id [] s.participants
        ≡ members db conv.id s
  unfolding count_conversation_participants
  count_all conv s = count_ext participants s.participants (λ p. ground arith)

  -- The participants collection after the loop, with the ids that the loop returns.
  abbrev pub grown : Conversation → List ℕ → Store db → List ℕ × db.Participants
  grown conv uids s =
      add_no_existed_participants participants conv.id (map (participant_of db conv) uids)
        s.participants

  current_count_lem :
      (conv : Conversation) (s : Store db)
      → (conv.kind ≡ channel → conv.subscribers_count ≡ int (pos (members db conv.id s)))
      → current_count db conv false s ≡ int (pos (members db conv.id s))
  unfolding current_count
  current_count_lem conv s h = elim (Bool-cases (is_channel conv.kind)) [
    | inl e ↦ rw e (h (is_channel-eq conv.kind e))
    | inr e ↦ rw e (rw (count_all conv s))
  ]

  -- A successful call, in terms of the loop.
  pub add_participants-eq-ok :
      (cfg : Config) (conv : Conversation) (uids : List ℕ) (is_empty : Bool) (s s' : Store db)
      (n : ℕ) (added : List ℕ) (conv' : Conversation)
      → current_count db conv is_empty s ≡ int (pos n)
      → add_participants db cfg conv uids is_empty s ≡ (ok (added, conv'), s')
      → (n + length uids ≤ cfg.max_participants)
        × (added ≡ (grown conv uids s).0)
        × (s'.participants ≡ (grown conv uids s).1)
        × (conv' ≡ (
            if is_channel conv.kind
            then record conv { subscribers_count = int (pos (n + length added)) }
            else conv))
        × (s'.conversations ≡ (
            if is_channel conv.kind
            then update_subscribers_count conversations conv.id
                (int (pos (n + length added)))
                s.conversations
            else s.conversations))
  unfolding add_participants
  add_participants-eq-ok cfg conv uids is_empty s s' n added conv' e h = ground arith

  -- Who is a participant afterwards: those asked for, and those of before, each once. The result
  -- lists those that are new, and the limit is kept.
  pub add_participants-members :
      (cfg : Config) (conv : Conversation) (uids : List ℕ) (s s' : Store db) (added : List ℕ)
      (conv' : Conversation)
      → IsSound db conv s
      → add_participants db cfg conv uids false s ≡ (ok (added, conv'), s')
      → (members db conv.id s' ≤ cfg.max_participants)
        × (members db conv.id s' ≡ length added + members db conv.id s)
        × ((uid : ℕ)
            → (membership db conv.id uid s' ≡ (
                if membership db conv.id uid s == 0 && includes uid uids
                then 1
                else membership db conv.id uid s))
              × (count (λ x. x == uid) added
                  ≡ (if membership db conv.id uid s == 0 && includes uid uids then 1 else 0)))
  add_participants-members cfg conv uids s s' added conv' v h =
      let ps = map (participant_of db conv) uids in
      let inside = participants-AllIn conv uids in
      let (room, e, after, _, _) =
        add_participants-eq-ok cfg conv uids false s s' (members db conv.id s) added conv'
          (current_count_lem conv s v.counted) h in
      let grows : members db conv.id s' ≡ length added + members db conv.id s =
        rw (after, e) (count-add_conversation participants conv.id ps s.participants inside) in
      (
        omega (
          arith,
          ap length e,
          length-add-le participants conv.id ps s.participants,
          length-participants conv uids,
        ),
        grows,
        λ uid. (
          rw (after, ← asked-participants conv uid uids)
              (count-add_member participants conv.id uid ps s.participants inside),
          rw (e, ← asked-participants conv uid uids)
              (count-added participants conv.id uid ps s.participants inside),
        ),
      )

  -- A refused call changes nothing, and is refused exactly when the request, with repeated ids and
  -- ids of participants counted in, goes past the limit.
  pub add_participants_refused :
      (cfg : Config) (conv : Conversation) (uids : List ℕ) (s : Store db)
      → IsSound db conv s
      → (add_participants db cfg conv uids false s ≡ (err participants_limit, s))
        ↔ (cfg.max_participants < members db conv.id s + length uids)
  unfolding add_participants
  add_participants_refused cfg conv uids s v = (
    λ h. ground (arith, current_count_lem conv s v.counted),
    λ h. ground (arith, current_count_lem conv s v.counted),
  )

  -- A successful call keeps the conversation sound.
  pub add_participants-IsSound :
      (cfg : Config) (conv : Conversation) (uids : List ℕ) (s s' : Store db) (added : List ℕ)
      (conv' : Conversation)
      → IsSound db conv s
      → add_participants db cfg conv uids false s ≡ (ok (added, conv'), s')
      → IsSound db conv' s'
  add_participants-IsSound cfg conv uids s s' added conv' v h =
      let (_, grows, who) = add_participants-members cfg conv uids s s' added conv' v h in
      let (_, _, _, e, stored) =
        add_participants-eq-ok cfg conv uids false s s' (members db conv.id s) added conv'
          (current_count_lem conv s v.counted) h in
      let n = int (pos (members db conv.id s + length added)) in
      let (same_id, same_kind, same_owner) = recounted_same conv n in
      subst (λ c. IsSound db c s') (sym (e ∙ recounted_lem conv n))
        (record {
          stored =
              recounted-IsStored conversations conv n s.conversations s'.conversations v.stored
                stored;
          unique = λ uid. rw same_id (ground (arith, who uid, v.unique uid));
          counted = λ c.
              recounted-counted conv n c
              ∙ ap (λ (k : ℕ). int (pos k)) (rw same_id (omega (arith, grows)));
          owned = λ p.
              rw (same_id, same_owner)
                (ground (arith, who conv.owner_id, v.owned (λ q. p (same_kind ∙ q))));
        })

  pub add_participants-id :
      (cfg : Config) (conv : Conversation) (uids : List ℕ) (s s' : Store db) (added : List ℕ)
      (conv' : Conversation)
      → IsSound db conv s
      → add_participants db cfg conv uids false s ≡ (ok (added, conv'), s')
      → conv'.id ≡ conv.id
  add_participants-id cfg conv uids s s' added conv' v h =
      let (_, _, _, e, _) =
        add_participants-eq-ok cfg conv uids false s s' (members db conv.id s) added conv'
          (current_count_lem conv s v.counted) h in
      ground (arith, e)

  pub add_participants-messages :
      (cfg : Config) (conv : Conversation) (uids : List ℕ) (is_empty : Bool) (s s' : Store db)
      (r : List ℕ × Conversation)
      → add_participants db cfg conv uids is_empty s ≡ (ok r, s')
      → s'.messages ≡ s.messages
  unfolding add_participants
  add_participants-messages cfg conv uids is_empty s s' r h = ground arith
