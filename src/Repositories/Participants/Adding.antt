-- ===== src/Repositories/Participants/Adding.antt =====
-- What the loop of `addNoExistedParticipants` adds.
use sama_server.Prelude.{
  ℕ, ◌+◌, ◌≤◌, ◌==◌, ◌≡◌, refl, Bool, false, ◌&&◌, List, [], ◌∷◌, map, if◌then◌else◌, includes,
  length, count, arith, Bool-cases, inl, inr,
}
use sama_server.Mongo.{Collection}
use sama_server.Mongo.Counting.{upsert_one_flag, count-upsert_one}
use sama_server.Store.{Participant}
use sama_server.Repositories.Participants.{
  same_count, in_conversation, is_member, add_no_existed_participants,
}

-- Every document of the list belongs to the conversation.
abbrev pub AllIn : ℕ → List Participant → Type 0
AllIn cid [] = Unit {0}
AllIn cid (p ∷ ps) = (p.conversation_id ≡ cid) × AllIn cid ps

abbrev pub asked : ℕ → List Participant → Bool
asked uid ps = includes uid (map (λ p. p.user_id) ps)

module _ {P : Type 0} (c : Collection Participant P) where
  -- A query that no participant of the conversation matches counts as before.
  pub add-other :
      (r : Participant → Bool) (cid : ℕ) (ps : List Participant) (s : P)
      → ((p : Participant) → p.conversation_id ≡ cid → r p ≡ false)
      → AllIn cid ps
      → c.count r (add_no_existed_participants c cid ps s).1 ≡ c.count r s
  unfolding add_no_existed_participants
  add-other r cid [] s h a = refl
  add-other r cid (p ∷ ps) s h a = ground (
    arith,
    add-other r cid ps (c.upsert_one (is_member cid p.user_id) p s).0 h a.1,
    count-upsert_one c r (is_member cid p.user_id) p s,
    h p a.0,
  )

  -- The conversation grows by the ids that the loop returns.
  pub count-add_conversation :
      (cid : ℕ) (ps : List Participant) (s : P)
      → AllIn cid ps
      → c.count (in_conversation cid) (add_no_existed_participants c cid ps s).1
        ≡ length (add_no_existed_participants c cid ps s).0 + c.count (in_conversation cid) s
  unfolding add_no_existed_participants
  count-add_conversation cid [] s a = omega arith
  count-add_conversation cid (p ∷ ps) s a = ground (
    arith,
    count-add_conversation cid ps (c.upsert_one (is_member cid p.user_id) p s).0 a.1,
    count-upsert_one c (in_conversation cid) (is_member cid p.user_id) p s,
    upsert_one_flag c (is_member cid p.user_id) p s,
  )

  pub length-add-le :
      (cid : ℕ) (ps : List Participant) (s : P)
      → length (add_no_existed_participants c cid ps s).0 ≤ length ps
  unfolding add_no_existed_participants
  length-add-le cid [] s = omega arith
  length-add-le cid (p ∷ ps) s =
      ground (arith, length-add-le cid ps (c.upsert_one (is_member cid p.user_id) p s).0)

  -- A user of the list who was no member becomes one, once; no other count of a user changes.
  pub count-add_member :
      (cid uid : ℕ) (ps : List Participant) (s : P)
      → AllIn cid ps
      → c.count (is_member cid uid) (add_no_existed_participants c cid ps s).1 ≡ (
          if c.count (is_member cid uid) s == 0 && asked uid ps
          then 1
          else c.count (is_member cid uid) s)
  unfolding add_no_existed_participants
  count-add_member cid uid [] s a = ground arith
  count-add_member cid uid (p ∷ ps) s a = elim (Bool-cases (p.user_id == uid)) [
    | inl e ↦ ground (
      arith,
      count-add_member cid uid ps (c.upsert_one (is_member cid p.user_id) p s).0 a.1,
      count-upsert_one c (is_member cid uid) (is_member cid p.user_id) p s,
      same_count c p.user_id uid cid s e,
    )
    | inr e ↦ ground (
      arith,
      count-add_member cid uid ps (c.upsert_one (is_member cid p.user_id) p s).0 a.1,
      count-upsert_one c (is_member cid uid) (is_member cid p.user_id) p s,
    )
  ]

  -- The ids that the loop returns are the users of the list who were no members, each once.
  pub count-added :
      (cid uid : ℕ) (ps : List Participant) (s : P)
      → AllIn cid ps
      → count (λ x. x == uid) (add_no_existed_participants c cid ps s).0
        ≡ (if c.count (is_member cid uid) s == 0 && asked uid ps then 1 else 0)
  unfolding add_no_existed_participants
  count-added cid uid [] s a = ground arith
  count-added cid uid (p ∷ ps) s a = elim (Bool-cases (p.user_id == uid)) [
    | inl e ↦ ground (
      arith,
      count-added cid uid ps (c.upsert_one (is_member cid p.user_id) p s).0 a.1,
      count-upsert_one c (is_member cid uid) (is_member cid p.user_id) p s,
      upsert_one_flag c (is_member cid p.user_id) p s,
      same_count c p.user_id uid cid s e,
    )
    | inr e ↦ ground (
      arith,
      count-added cid uid ps (c.upsert_one (is_member cid p.user_id) p s).0 a.1,
      count-upsert_one c (is_member cid uid) (is_member cid p.user_id) p s,
    )
  ]
