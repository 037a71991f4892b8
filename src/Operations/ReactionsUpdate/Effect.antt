-- ===== src/Operations/ReactionsUpdate/Effect.antt =====
-- What a reaction request does to the stored reactions.
use Prim.Native.String.{String}
use text.Mathlib.Text.{◌==◌ as str_eq}
use text.Mathlib.TextEquality.{eq_iff}
use sama_server.Prelude.{
  ℕ, ◌≤◌, ◌==◌, ◌≡◌, ◌⊎◌, refl, ap, ◌∙◌, Bool, true, false, not, ◌&&◌, ◌||◌, none, some, arith,
  if◌then◌else◌, Bool-cases, inl, inr, Option-cases, any, ==_iff,
}
use sama_server.Mongo.{Collection}
use sama_server.Mongo.Counting.{count_ext, count_mono}
use sama_server.Errors.{Result, bind, return, ok, err}
use sama_server.Store.{Message, Reaction, Driver, Store, Config}
use sama_server.Repositories.Conversations.{find_by_id as find_conversation}
use sama_server.Repositories.Messages.{find_by_id, is_reaction, upsert_reaction, remove_reaction}
use sama_server.Messages.Reactions.{update_reactions-keeps}
use sama_server.Messages.{access_to, has_access_to_message, update_reactions}
use sama_server.Operations.ReactionsUpdate.{
  ReactionParams, update_message_reactions, check_message, report, report_changed,
}

abbrev pub reacted : ℕ → ℕ → String → Reaction
reacted mid uid name = record { mid = mid; user_id = uid; reaction = name }

module _ {R : Type 0} (c : Collection Reaction R) where
  -- No user reacts twice to a message with the same name.
  abbrev pub HasUniqueReactions : R → Type 0
  HasUniqueReactions s = (mid uid : ℕ) (name : String) → c.count (is_reaction mid uid name) s ≤ 1

  same_query :
      (m v : ℕ) (n : String) (mid uid : ℕ) (name : String) (s : R)
      → is_reaction m v n (reacted mid uid name) ≡ true
      → c.count (is_reaction m v n) s ≡ c.count (is_reaction mid uid name) s
  same_query m v n mid uid name s h =
      let a : (mid == m) ≡ true = ground arith in
      let b : (uid == v) ≡ true = ground arith in
      let d : str_eq name n ≡ true = ground arith in
      rw ((==_iff mid m).0 a, (==_iff uid v).0 b, (eq_iff name n).0 d) refl

  upsert_reaction_unique :
      (mid uid : ℕ) (name : String) (s : R)
      → HasUniqueReactions s
      → HasUniqueReactions (upsert_reaction c mid uid name s).1
  unfolding upsert_reaction
  upsert_reaction_unique mid uid name s u m v n =
      elim (Option-cases (c.find_one (is_reaction mid uid name) s)) [
        | inr (r, e) ↦ rw (e, upsert_reaction) (u m v n)
        | inl e ↦
            let absent = c.find_one_none (is_reaction mid uid name) s e in
            rw (e, upsert_reaction, c.count-insert_one (is_reaction m v n) (reacted mid uid name) s)
              (elim (Bool-cases (is_reaction m v n (reacted mid uid name))) [
                | inr other ↦ rw other (omega (arith, u m v n))
                | inl h ↦ rw h (omega (arith, same_query m v n mid uid name s h))
              ])
      ]

  remove_reaction_unique :
      (mid uid : ℕ) (name : String) (s : R)
      → HasUniqueReactions s
      → HasUniqueReactions (remove_reaction c mid uid name s).1
  unfolding remove_reaction
  remove_reaction_unique mid uid name s u m v n =
      let q = is_reaction mid uid name in
      omega (
        arith,
        u m v n,
        c.count-delete_many (is_reaction m v n) q s,
        count_mono c (λ r. is_reaction m v n r && not (q r)) (is_reaction m v n) s
            (λ r h. ground arith),
      )

  -- A query that no reaction of the user to the message matches counts as before.
  upsert_reaction-others :
      (mid uid : ℕ) (name : String) (p : Reaction → Bool) (s : R)
      → ((n : String) → p (reacted mid uid n) ≡ false)
      → c.count p (upsert_reaction c mid uid name s).1 ≡ c.count p s
  unfolding upsert_reaction
  upsert_reaction-others mid uid name p s out =
      elim (Option-cases (c.find_one (is_reaction mid uid name) s)) [
        | inr (r, e) ↦ rw (e, upsert_reaction) refl
        | inl e ↦
            rw (e, upsert_reaction)
              (c.count-insert_one p (reacted mid uid name) s ∙ rw (out name) (omega arith))
      ]

  reaction_is :
      (mid uid : ℕ) (name : String) (r : Reaction)
      → is_reaction mid uid name r ≡ true
      → r ≡ reacted mid uid r.reaction
  reaction_is mid uid name r h =
      let a : (r.mid == mid) ≡ true = ground arith in
      let b : (r.user_id == uid) ≡ true = ground arith in
      rw (← (==_iff r.mid mid).0 a, ← (==_iff r.user_id uid).0 b) refl

  remove_reaction-others :
      (mid uid : ℕ) (name : String) (p : Reaction → Bool) (s : R)
      → ((n : String) → p (reacted mid uid n) ≡ false)
      → c.count p (remove_reaction c mid uid name s).1 ≡ c.count p s
  unfolding remove_reaction
  remove_reaction-others mid uid name p s out =
      c.count-delete_many p (is_reaction mid uid name) s
      ∙ count_ext c s (λ r. kept r (Bool-cases (is_reaction mid uid name r)))
    where
      kept :
          (r : Reaction)
          → (is_reaction mid uid name r ≡ true) ⊎ (is_reaction mid uid name r ≡ false)
          → (p r && not (is_reaction mid uid name r)) ≡ p r
      kept r (inl h) = rw h (rw (reaction_is mid uid name r h, out r.reaction) refl)
      kept r (inr h) = rw h (ground arith)

module _ (db : Driver) (same : ℕ → ℕ → Bool) where
  found_id :
      (mid : ℕ) (s : Store db) (m : Message)
      → find_by_id db.messages mid s.messages ≡ some m
      → m.id ≡ mid
  unfolding find_by_id
  found_id mid s m e =
      (==_iff m.id mid).0 (db.messages.find_one_some (λ d. d.id == mid) s.messages m e).0

  report_changed-keeps :
      (cfg : Config) (uid : ℕ) (params : ReactionParams) (m : Message) (updated : Bool × Bool)
      (s : Store db)
      → (report_changed db same cfg uid params m updated s).1 ≡ s
  unfolding report_changed report
  report_changed-keeps cfg uid params m updated s =
      elim (Option-cases (find_conversation db.conversations m.cid s.conversations)) [
        | inl e ↦ rw e refl
        | inr (conv, e) ↦ rw e refl
      ]

  -- A request either leaves the store as it was, or updates the reactions of the caller to the
  -- message that it names.
  update_message_reactions_cases :
      (cfg : Config) (uid : ℕ) (params : ReactionParams) (s : Store db)
      → ((update_message_reactions db same cfg uid params s).1 ≡ s)
        ⊎ ((update_message_reactions db same cfg uid params s).1
            ≡ (update_reactions db params.mid uid params.add params.remove s).1)
  unfolding update_message_reactions check_message has_access_to_message access_to
  update_message_reactions_cases cfg uid params s =
      elim (Option-cases (find_by_id db.messages params.mid s.messages)) [
        | inl e ↦ inl (rw e refl)
        | inr (m, e) ↦ elim (Bool-cases (any (λ x. same x uid) m.deleted_for)) [
          | inl gone ↦ inl (rw (e, gone) refl)
          | inr there ↦ inr (
              rw (e, there)
                (reported m (update_reactions db m.id uid params.add params.remove s)
                  ∙ ap (λ i. (update_reactions db i uid params.add params.remove s).1)
                      (found_id params.mid s m e)))
        ]
      ]
    where
      reported :
          (m : Message) (r : Result (Bool × Bool) × Store db)
          → (bind r (λ updated.
              if updated.0 || updated.1
              then report_changed db same cfg uid params m updated
              else return none)).1
            ≡ r.1
      reported m (err e, t) = refl
      reported m (ok (a, b), t) = elim (Bool-cases (a || b)) [
        | inl e ↦ rw e (report_changed-keeps cfg uid params m (a, b) t)
        | inr e ↦ rw e refl
      ]

  -- A request keeps the reactions unique, whatever its outcome: no user reacts twice to a message
  -- with the same name.
  pub update_message_reactions-HasUniqueReactions :
      (cfg : Config) (uid : ℕ) (params : ReactionParams) (s : Store db)
      → HasUniqueReactions db.reactions s.reactions
      → HasUniqueReactions db.reactions
          (update_message_reactions db same cfg uid params s).1.reactions
  update_message_reactions-HasUniqueReactions cfg uid params s u =
      elim (update_message_reactions_cases cfg uid params s) [
        | inl e ↦ rw e u
        | inr e ↦ rw e (
            update_reactions-keeps db (HasUniqueReactions db.reactions) params.mid uid params.add
              params.remove s
              (λ name t q. upsert_reaction_unique db.reactions params.mid uid name t q)
              (λ name t q. remove_reaction_unique db.reactions params.mid uid name t q) u)
      ]

  -- Whatever the outcome, a query that no reaction of the caller to that message matches counts as
  -- before: reactions of others and to other messages stay.
  pub update_message_reactions-others :
      (cfg : Config) (uid : ℕ) (params : ReactionParams) (p : Reaction → Bool) (s : Store db)
      → ((name : String) → p (reacted params.mid uid name) ≡ false)
      → db.reactions.count p (update_message_reactions db same cfg uid params s).1.reactions
        ≡ db.reactions.count p s.reactions
  update_message_reactions-others cfg uid params p s out =
      elim (update_message_reactions_cases cfg uid params s) [
        | inl e ↦ rw e refl
        | inr e ↦ rw e (
            update_reactions-keeps db
              (λ t. db.reactions.count p t ≡ db.reactions.count p s.reactions) params.mid uid
              params.add params.remove s
              (λ name t q. upsert_reaction-others db.reactions params.mid uid name p t out ∙ q)
              (λ name t q. remove_reaction-others db.reactions params.mid uid name p t out ∙ q)
              refl)
      ]
