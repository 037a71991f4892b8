-- ===== src/Repositories/Participants/Removing.antt =====
-- What the loop of `removeExistedParticipants` removes.
use sama_server.Prelude.{
  ℕ, ◌+◌, ◌≤◌, ◌==◌, ◌≡◌, refl, ◌∙◌, Bool, true, false, ◌&&◌, List, [], ◌∷◌, if◌then◌else◌,
  includes, length, count, arith, Bool-cases, inl, inr, ==_iff, ltb, subst,
}
use sama_server.Mongo.{Collection}
use sama_server.Mongo.Counting.{count_ext, count_zero, count_sum}
use native.Mathlib.Nat.{le_trans}
use sama_server.Store.{Participant}
use sama_server.Repositories.Participants.{
  same_count, in_conversation, is_member, remove_existed_participants,
}

module _ {P : Type 0} (c : Collection Participant P) where
  -- One round of the loop.
  delete-other :
      (r q : Participant → Bool) (s : P)
      → ((p : Participant) → q p ≡ true → r p ≡ false)
      → c.count r (c.delete_many q s).0 ≡ c.count r s
  delete-other r q s h = c.count-delete_many r q s ∙ count_ext c s (λ p. ground (arith, h p))

  delete_self : (q : Participant → Bool) (s : P) → c.count q (c.delete_many q s).0 ≡ 0
  delete_self q s = c.count-delete_many q q s ∙ count_zero c s (λ p. ground arith)

  delete-le : (r q : Participant → Bool) (s : P) → c.count r (c.delete_many q s).0 ≤ c.count r s
  delete-le r q s = omega (arith, c.count-delete_many r q s, c.count_split r q s)

  delete_same :
      (x uid cid : ℕ) (s : P)
      → (x == uid) ≡ true
      → c.count (is_member cid uid) (c.delete_many (is_member cid x) s).0 ≡ 0
  delete_same x uid cid s e =
      subst (λ u. c.count (is_member cid u) (c.delete_many (is_member cid x) s).0 ≡ 0)
        ((==_iff x uid).0 e) (delete_self (is_member cid x) s)

  -- A query that no participant of the conversation matches counts as before.
  pub remove-other :
      (r : Participant → Bool) (cid : ℕ) (uids : List ℕ) (s : P)
      → ((p : Participant) → p.conversation_id ≡ cid → r p ≡ false)
      → c.count r (remove_existed_participants c cid uids s).1 ≡ c.count r s
  unfolding remove_existed_participants
  remove-other r cid [] s h = refl
  remove-other r cid (uid ∷ uids) s h =
      remove-other r cid uids _ h ∙ delete-other r (is_member cid uid) s (λ p e. h p (ground arith))

  -- The users of the list are members no longer; the others are as before.
  pub count-remove_member :
      (cid uid : ℕ) (uids : List ℕ) (s : P)
      → c.count (is_member cid uid) (remove_existed_participants c cid uids s).1
        ≡ (if includes uid uids then 0 else c.count (is_member cid uid) s)
  unfolding remove_existed_participants
  count-remove_member cid uid [] s = refl
  count-remove_member cid uid (x ∷ xs) s = elim (Bool-cases (x == uid)) [
    | inl e ↦ ground (
      arith,
      count-remove_member cid uid xs (c.delete_many (is_member cid x) s).0,
      delete_same x uid cid s e,
    )
    | inr e ↦ ground (
      arith,
      count-remove_member cid uid xs (c.delete_many (is_member cid x) s).0,
      delete-other (is_member cid uid) (is_member cid x) s (λ p h. ground arith),
    )
  ]

  -- The ids that the loop returns are the members of the list, each once.
  pub count-removed :
      (cid uid : ℕ) (uids : List ℕ) (s : P)
      → count (λ x. x == uid) (remove_existed_participants c cid uids s).0
        ≡ (if ltb 0 (c.count (is_member cid uid) s) && includes uid uids then 1 else 0)
  unfolding remove_existed_participants
  count-removed cid uid [] s = ground arith
  count-removed cid uid (x ∷ xs) s = elim (Bool-cases (x == uid)) [
    | inl e ↦ ground (
      arith,
      count-removed cid uid xs (c.delete_many (is_member cid x) s).0,
      delete_same x uid cid s e,
      c.deleted_count (is_member cid x) s,
      same_count c x uid cid s e,
    )
    | inr e ↦ ground (
      arith,
      count-removed cid uid xs (c.delete_many (is_member cid x) s).0,
      delete-other (is_member cid uid) (is_member cid x) s (λ p h. ground arith),
    )
  ]

  -- Without duplicates the conversation shrinks by the number of ids that the loop returns.
  pub count-remove_conversation :
      (cid : ℕ) (uids : List ℕ) (s : P)
      → ((uid : ℕ) → c.count (is_member cid uid) s ≤ 1)
      → c.count (in_conversation cid) (remove_existed_participants c cid uids s).1
          + length (remove_existed_participants c cid uids s).0
        ≡ c.count (in_conversation cid) s
  unfolding remove_existed_participants
  count-remove_conversation cid [] s u = omega arith
  count-remove_conversation cid (x ∷ xs) s u =
      let s' = (c.delete_many (is_member cid x) s).0 in
      ground (
        arith,
        count-remove_conversation cid xs s'
            (λ uid. le_trans (delete-le (is_member cid uid) _ s) (u uid)),
        c.deleted_count (is_member cid x) s,
        u x,
        c.count-delete_many (in_conversation cid) (is_member cid x) s,
        count_sum c (in_conversation cid) (is_member cid x) (is_member cid x) s (λ d. ground arith),
      )
