-- ===== src/Repositories/Participants.antt =====
-- app/providers/repositories/conversation_participants/index.js, over its collection. Timestamps and
-- `_id` of a participant are left out: no modelled operation reads them.
pub mod Adding
pub mod Removing
use sama_server.Prelude.{
  ℕ, ◌==◌, Bool, true, false, not, ◌&&◌, List, [], ◌∷◌, map, Option, none, some, if◌then◌else◌,
  includes, ltb, is_empty, ap, ◌≡◌, ==_iff,
}
use sama_server.Mongo.{Collection}
use sama_server.Store.{Role, owner, admin, plain, Participant}

-- the queries { conversation_id }, { conversation_id, user_id } and { role }
abbrev pub in_conversation : ℕ → Participant → Bool
in_conversation cid p = p.conversation_id == cid

abbrev pub is_member : ℕ → ℕ → Participant → Bool
is_member cid uid p = p.conversation_id == cid && p.user_id == uid

abbrev pub same_role : Role → Role → Bool
same_role owner owner = true
same_role admin admin = true
same_role plain plain = true
same_role _ _ = false

-- the limit that `findAll` of the base repository has by default
abbrev pub find_all_limit : ℕ
find_all_limit = 100

module _ {P : Type 0} (c : Collection Participant P) where
  unfoldable pub count_conversation_participants : ℕ → List ℕ → P → ℕ
  count_conversation_participants cid except s =
      c.count
        (λ p.
          in_conversation cid p
          && (if is_empty except then true else not (includes p.user_id except)))
        s

  unfoldable pub filter_available_conversation_ids : List ℕ → ℕ → Option Role → P → List ℕ
  filter_available_conversation_ids cids uid role s =
      map (λ p. p.conversation_id)
        (c.find
          (λ p.
            includes p.conversation_id cids
            && p.user_id == uid
            && (elim role [ none ↦ true | some r ↦ same_role r p.role ]))
          find_all_limit s)

  unfoldable pub find_first_conversation_participant : ℕ → Option ℕ → P → Option Participant
  find_first_conversation_participant cid none s = c.find_one (in_conversation cid) s
  find_first_conversation_participant cid (some uid) s = c.find_one (is_member cid uid) s

  -- The list of the ids that were added, and the collection after the loop.
  unfoldable pub add_no_existed_participants : ℕ → List Participant → P → List ℕ × P
  add_no_existed_participants cid [] s = ([], s)
  add_no_existed_participants cid (p ∷ ps) s =
      let r = c.upsert_one (is_member cid p.user_id) p s in
      let rest = add_no_existed_participants cid ps r.0 in
      ((if r.1 then p.user_id ∷ rest.0 else rest.0), rest.1)

  unfoldable pub remove_existed_participants : ℕ → List ℕ → P → List ℕ × P
  remove_existed_participants cid [] s = ([], s)
  remove_existed_participants cid (uid ∷ uids) s =
      let r = c.delete_many (is_member cid uid) s in
      let rest = remove_existed_participants cid uids r.0 in
      ((if ltb 0 r.1 then uid ∷ rest.0 else rest.0), rest.1)

  unfoldable pub set_role : Role → ℕ → List ℕ → P → P
  set_role role cid uids =
      c.update_many (λ p. in_conversation cid p && includes p.user_id uids)
        (λ p. record p { role = role })

  unfoldable pub add_admin_role : ℕ → List ℕ → P → P
  unfolding set_role
  add_admin_role = set_role admin

  unfoldable pub remove_admin_role : ℕ → List ℕ → P → P
  unfolding set_role
  remove_admin_role = set_role plain

  pub same_count :
      (x uid cid : ℕ) (s : P)
      → (x == uid) ≡ true
      → c.count (is_member cid x) s ≡ c.count (is_member cid uid) s
  same_count x uid cid s e = ap (λ u. c.count (is_member cid u) s) ((==_iff x uid).0 e)
