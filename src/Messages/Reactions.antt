-- ===== src/Messages/Reactions.antt =====
-- `updateReactions` is made of the two writes of the repository.
use Prim.Native.String.{String}
use text.Mathlib.Text.{◌==◌ as str_eq}
use sama_server.Prelude.{ℕ, ◌≡◌, refl, Bool, false, Option, none, some, Bool-cases, inl, inr}
use sama_server.Errors.{Result, ok}
use sama_server.Store.{Driver, Store}
use sama_server.Repositories.Messages.{upsert_reaction, remove_reaction}
use sama_server.Messages.{add_reaction, drop_reaction, update_reactions}

module _ (db : Driver) (Q : db.Reactions → Type 0) (mid uid : ℕ) where
  -- An action that succeeds and keeps the predicate.
  abbrev Keeps : Result Bool × Store db → Type 0
  Keeps r = (b : Bool) × (s : Store db) × (r ≡ (ok b, s)) × Q s.reactions

  add_reaction-Keeps :
      (add : Option String) (s : Store db)
      → ((name : String) (t : db.Reactions)
          → Q t
          → Q (upsert_reaction db.reactions mid uid name t).1)
      → Q s.reactions
      → Keeps (add_reaction db mid uid add s)
  unfolding add_reaction
  add_reaction-Keeps none s h q = (false, s, refl, q)
  add_reaction-Keeps (some name) s h q =
      let r = upsert_reaction db.reactions mid uid name s.reactions in
      elim (Bool-cases (str_eq name "")) [
        | inl e ↦ (false, s, rw e refl, q)
        | inr e ↦ (r.0, record s { reactions = r.1 }, rw e refl, h name s.reactions q)
      ]

  drop_reaction-Keeps :
      (remove : Option String) (s : Store db)
      → ((name : String) (t : db.Reactions)
          → Q t
          → Q (remove_reaction db.reactions mid uid name t).1)
      → Q s.reactions
      → Keeps (drop_reaction db mid uid remove s)
  unfolding drop_reaction
  drop_reaction-Keeps none s h q = (false, s, refl, q)
  drop_reaction-Keeps (some name) s h q =
      let r = remove_reaction db.reactions mid uid name s.reactions in
      elim (Bool-cases (str_eq name "")) [
        | inl e ↦ (false, s, rw e refl, q)
        | inr e ↦ (r.0, record s { reactions = r.1 }, rw e refl, h name s.reactions q)
      ]

  -- What both writes keep, `updateReactions` keeps.
  pub update_reactions-keeps :
      (add remove : Option String) (s : Store db)
      → ((name : String) (t : db.Reactions)
          → Q t
          → Q (upsert_reaction db.reactions mid uid name t).1)
      → ((name : String) (t : db.Reactions)
          → Q t
          → Q (remove_reaction db.reactions mid uid name t).1)
      → Q s.reactions
      → Q (update_reactions db mid uid add remove s).1.reactions
  unfolding update_reactions
  update_reactions-keeps add remove s up down q =
      let (a, s1, e1, q1) = add_reaction-Keeps add s up q in
      let (b, s2, e2, q2) = drop_reaction-Keeps remove s1 down q1 in
      rw (update_reactions, e1, e2) q2
