-- ===== src/Conversation/Removing.antt =====
-- What `removeParticipants` does to the participants, the counter and the owner of a conversation.
use sama_server.Prelude.{
  any-count, ltb, Option-cases, none, some, ◌⊎◌, subst, ℕ, ◌+◌, ◌==◌, ◌≡◌, ◌≢◌, refl, sym, ap, ◌∙◌,
  Bool, true, false, not, ◌&&◌, if◌then◌else◌, arith, ◌<◌, List, length, count, includes, inl, inr,
}
use sama_server.Prelude.Int.{pos}
use mathlib.Core.Bool.{false≢true}
use sama_server.Errors.{ok}
use sama_server.Store.{private, Participant, Conversation, Driver, Store, Count, int, minus}
use sama_server.Repositories.Participants.{
  in_conversation, is_member, find_first_conversation_participant, remove_existed_participants,
}
use sama_server.Repositories.Participants.Removing.{
  count-remove_member, count-removed, count-remove_conversation,
}
use sama_server.Repositories.Conversations.{
  update_subscribers_count, is_channel, is_private, is_private-eq, delete_by_id, update_owner,
}
use sama_server.Conversation.Stored.{
  recounted, recounted_same, recounted-counted, recounted-IsStored, IsStored, handed-IsStored,
}
use sama_server.Conversation.Members.{members, membership, IsSound}
use sama_server.Conversation.{Removal, remove_participants}

-- The conversation as the next request reads it: the object of the call with the new owner.
unfoldable pub settled : Removal → Conversation
settled r = elim r.new_owner_id [
  | none ↦ r.conversation
  | some uid ↦ record r.conversation { owner_id = uid }
]

module _ (db : Driver) where
  open db use {participants, conversations}

  abbrev shrunk : Conversation → List ℕ → Store db → List ℕ × db.Participants
  shrunk conv uids s = remove_existed_participants participants conv.id uids s.participants

  -- The owner hands over to `first`.
  abbrev changes_owner : Conversation → List ℕ → Bool
  changes_owner conv removed = includes conv.owner_id removed && not (is_private conv.kind)

  -- What a call returns and stores, when nobody is left and when `first` is.
  abbrev Emptied : Conversation → List ℕ → Store db → Removal → Store db → Type 0
  Emptied conv uids s r s' =
      (find_first_conversation_participant participants conv.id none (shrunk conv uids s).1 ≡ none)
      × (r.is_empty_and_deleted ≡ true)
      × (s'.conversations ≡ delete_by_id conversations conv.id s.conversations)

  abbrev Left : Conversation → List ℕ → Store db → Removal → Store db → Participant → Type 0
  Left conv uids s r s' first =
      (find_first_conversation_participant participants conv.id none (shrunk conv uids s).1
        ≡ some first)
      × (r.is_empty_and_deleted ≡ false)
      × (r.new_owner_id ≡ (if changes_owner conv r.removed_ids then some first.user_id else none))
      × (r.conversation ≡ recounted conv (minus conv.subscribers_count (length r.removed_ids)))
      × (s'.conversations ≡ (
          let t =
            if changes_owner conv r.removed_ids
            then update_owner conversations conv.id first.user_id s.conversations
            else s.conversations in
          if is_channel conv.kind
          then update_subscribers_count conversations conv.id
              (minus conv.subscribers_count (length r.removed_ids)) t
          else t))

  remove_participants_cases :
      (conv : Conversation) (uids : List ℕ) (s s' : Store db) (r : Removal)
      → remove_participants db conv uids s ≡ (ok r, s')
      → (s'.participants ≡ (shrunk conv uids s).1)
        × (r.removed_ids ≡ (shrunk conv uids s).0)
        × (Emptied conv uids s r s' ⊎ ((first : Participant) × Left conv uids s r s' first))
  unfolding remove_participants recounted
  remove_participants_cases conv uids s s' r h =
      elim (Option-cases
        (find_first_conversation_participant participants conv.id none (shrunk conv uids s).1)) [
          | inl e ↦ (ground arith, ground arith, inl (e, ground arith, ground arith))
          | inr (first, e) ↦ (
            ground arith,
            ground arith,
            inr (first, (e, ground arith, ground arith, ground arith, ground arith)),
          )
        ]

  first_none :
      (cid : ℕ) (t : db.Participants)
      → find_first_conversation_participant participants cid none t ≡ none
      → participants.count (in_conversation cid) t ≡ 0
  unfolding find_first_conversation_participant
  first_none cid t e = participants.find_one_none (in_conversation cid) t e

  first_some :
      (cid : ℕ) (t : db.Participants) (first : Participant)
      → find_first_conversation_participant participants cid none t ≡ some first
      → (0 < participants.count (is_member cid first.user_id) t)
        × (0 < participants.count (in_conversation cid) t)
  unfolding find_first_conversation_participant
  first_some cid t first e =
      let (inside, counts) = participants.find_one_some (in_conversation cid) t first e in
      (counts (is_member cid first.user_id) (ground arith), counts (in_conversation cid) inside)

  -- Who is a participant afterwards: those of before but the users of the request. The result lists
  -- those of them that were participants, and says whether nobody is left.
  pub remove_participants-members :
      (conv : Conversation) (uids : List ℕ) (s s' : Store db) (r : Removal)
      → IsSound db conv s
      → remove_participants db conv uids s ≡ (ok r, s')
      → (members db conv.id s' + length r.removed_ids ≡ members db conv.id s)
        × (r.is_empty_and_deleted ≡ (members db conv.id s' == 0))
        × ((uid : ℕ)
            → (membership db conv.id uid s'
                ≡ (if includes uid uids then 0 else membership db conv.id uid s))
              × (count (λ x. x == uid) r.removed_ids
                  ≡ (if ltb 0 (membership db conv.id uid s) && includes uid uids then 1 else 0)))
  remove_participants-members conv uids s s' r v h =
      let (after, e, how) = remove_participants_cases conv uids s s' r h in
      (
        rw (after, e) (count-remove_conversation participants conv.id uids s.participants v.unique),
        elim how [
          | inl (none_left, flag, _) ↦ rw (flag, after, first_none conv.id _ none_left) refl
          | inr (first, (left, flag, _, _, _)) ↦
              rw (flag, after) (ground (arith, first_some conv.id _ first left))
        ],
        λ uid. (
          rw after (count-remove_member participants conv.id uid uids s.participants),
          rw e (count-removed participants conv.id uid uids s.participants),
        ),
      )

  abbrev heir : Conversation → Bool → ℕ → Conversation
  heir conv changes uid = if changes then record conv { owner_id = uid } else conv

  settled_lem :
      (conv : Conversation) (r : Removal) (changes : Bool) (uid : ℕ) (k : Count)
      → r.new_owner_id ≡ (if changes then some uid else none)
      → r.conversation ≡ recounted conv k
      → settled r ≡ recounted (heir conv changes uid) k
  unfolding settled recounted
  settled_lem conv r true uid k e f = rw e (ground arith)
  settled_lem conv r false uid k e f = rw e f

  heir-IsStored :
      (conv : Conversation) (changes : Bool) (uid : ℕ) (k : Count) (t t' : db.Conversations)
      → IsStored conversations conv t
      → t' ≡ (
          let u = if changes then update_owner conversations conv.id uid t else t in
          if is_channel conv.kind then update_subscribers_count conversations conv.id k u else u)
      → IsStored conversations (recounted (heir conv changes uid) k) t'
  heir-IsStored conv true uid k t t' st e =
      recounted-IsStored conversations _ k _ t'
        (handed-IsStored conversations conv true uid t _ st refl) e
  heir-IsStored conv false uid k t t' st e = recounted-IsStored conversations conv k t t' st e

  heir_same :
      (conv : Conversation) (changes : Bool) (uid : ℕ)
      → ((heir conv changes uid).id ≡ conv.id)
        × ((heir conv changes uid).kind ≡ conv.kind)
        × ((heir conv changes uid).owner_id ≡ (if changes then uid else conv.owner_id))
  heir_same conv true uid = (refl, refl, refl)
  heir_same conv false uid = (refl, refl, refl)

  minus_count : (k : Count) (m n l : ℕ) → k ≡ int (pos m) → n + l ≡ m → minus k l ≡ int (pos n)
  minus_count k m n l e f = rw e (ground arith)

  -- The owner afterwards takes part, by what the request did to the former one.
  owner_kept :
      (conv : Conversation) (first : ℕ) (removed : List ℕ) (before : ℕ) (after : ℕ → ℕ)
      → 0 < after first
      → 0 < before
      → conv.kind ≢ private
      → (named : Bool) → after conv.owner_id ≡ (if named then 0 else before)
      → count (λ x. x == conv.owner_id) removed ≡ (if ltb 0 before && named then 1 else 0)
      → 0 < after (if changes_owner conv removed then first else conv.owner_id)
  owner_kept conv first removed before after there b p named e f =
      ground (arith, any-count (λ (x : ℕ). x == conv.owner_id) removed, is_private-eq conv.kind)

  -- While somebody is left, the conversation stays sound: the counter of a channel falls by the
  -- removed participants, and a removed owner of a group or channel is replaced by a participant.
  pub remove_participants-IsSound :
      (conv : Conversation) (uids : List ℕ) (s s' : Store db) (r : Removal)
      → IsSound db conv s
      → remove_participants db conv uids s ≡ (ok r, s')
      → r.is_empty_and_deleted ≡ false
      → IsSound db (settled r) s'
  remove_participants-IsSound conv uids s s' r v h kept =
      let (after, e, how) = remove_participants_cases conv uids s s' r h in
      let (total, _, who) = remove_participants-members conv uids s s' r v h in
      elim how [
        | inl (_, flag, _) ↦ absurd (false≢true (sym kept ∙ flag))
        | inr (first, (left, _, heir_id, obj, stored)) ↦
            let changes = changes_owner conv r.removed_ids in
            let k = minus conv.subscribers_count (length r.removed_ids) in
            let conv' = heir conv changes first.user_id in
            let (same_id, same_kind, same_owner) = recounted_same conv' k in
            let (id', kind', owner') = heir_same conv changes first.user_id in
            let (there, _) = first_some conv.id _ first left in
            subst (λ c. IsSound db c s')
              (sym (settled_lem conv r changes first.user_id k heir_id obj))
              (record {
                stored =
                    heir-IsStored conv changes first.user_id k s.conversations s'.conversations
                      v.stored stored;
                unique = λ uid. rw (same_id, id') (ground (arith, who uid, v.unique uid));
                counted = λ c.
                    recounted-counted conv' k c
                    ∙ (minus_count conv.subscribers_count (members db conv.id s)
                          (members db conv.id s') (length r.removed_ids)
                          (v.counted (sym kind' ∙ (sym same_kind ∙ c))) total
                        ∙ ap (λ (i : ℕ). int (pos (members db i s'))) (sym (same_id ∙ id')));
                owned = λ p.
                    rw (same_id, id', same_owner, owner')
                      (owner_kept conv first.user_id r.removed_ids
                        (membership db conv.id conv.owner_id s) (λ u. membership db conv.id u s')
                        (rw after there) (v.owned (λ q. p (same_kind ∙ (kind' ∙ q))))
                        (λ q. p (same_kind ∙ (kind' ∙ q))) (includes conv.owner_id uids)
                        (who conv.owner_id).0 (who conv.owner_id).1);
              })
      ]

  pub settled-id :
      (conv : Conversation) (uids : List ℕ) (s s' : Store db) (r : Removal)
      → remove_participants db conv uids s ≡ (ok r, s')
      → r.is_empty_and_deleted ≡ false
      → (settled r).id ≡ conv.id
  settled-id conv uids s s' r h kept =
      let (_, _, how) = remove_participants_cases conv uids s s' r h in
      elim how [
        | inl (_, flag, _) ↦ absurd (false≢true (sym kept ∙ flag))
        | inr (first, (_, _, heir_id, obj, _)) ↦
            let changes = changes_owner conv r.removed_ids in
            let k = minus conv.subscribers_count (length r.removed_ids) in
            let conv' = heir conv changes first.user_id in
            ap (λ (c : Conversation). c.id) (settled_lem conv r changes first.user_id k heir_id obj)
            ∙ ((recounted_same conv' k).0 ∙ (heir_same conv changes first.user_id).0)
      ]
