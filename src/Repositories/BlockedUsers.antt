-- ===== src/Repositories/BlockedUsers.antt =====
-- app/providers/repositories/blocked_user/index.js, over its collection.
use sama_server.Prelude.{
  ℕ, ◌==◌, Bool, true, not, ◌&&◌, ◌||◌, List, [], ◌∷◌, Option, none, some, includes, ltb,
  if◌then◌else◌,
}
use sama_server.Mongo.{Collection}
use sama_server.Errors.{Action, ok, err, duplicate_key}
use sama_server.Store.{BlockedUser}
use sama_server.Repositories.Participants.{find_all_limit}

abbrev pub among : Option (List ℕ) → ℕ → Bool
among none x = true
among (some xs) x = includes x xs

-- the queries of `list` and `blockers`, with `mergeOperators` joining their parts
abbrev pub blocked_by : ℕ → Bool → Option (List ℕ) → BlockedUser → Bool
blocked_by uid only_enabled recipients b =
    b.user_id == uid && ((not only_enabled || b.enabled) && among recipients b.blocked_user_id)

abbrev pub blocker_of : ℕ → Bool → Option (List ℕ) → BlockedUser → Bool
blocker_of uid only_enabled recipients b =
    b.blocked_user_id == uid && ((not only_enabled || b.enabled) && among recipients b.user_id)

-- The unique index { user_id: 1, blocked_user_id: 1 } of
-- migrations/20260204123952-blocked-users-unique.js refuses a document that has the key of another.
abbrev pub same_key : BlockedUser → BlockedUser → Bool
same_key b d = d.user_id == b.user_id && d.blocked_user_id == b.blocked_user_id

module _ {B : Type 0} (c : Collection BlockedUser B) where
  -- `create`, which nothing calls
  pub create_one : ℕ → BlockedUser → Action B BlockedUser
  create_one org params s =
      let b = record params { organization_id = org } in
      if ltb 0 (c.count (same_key b) s) then (err duplicate_key, s) else (ok b, c.insert_one b s)

  -- insertMany, one document after the other: it stops at the first that the unique index refuses, and
  -- those before it stay.
  unfoldable pub create_many : List BlockedUser → Action B (Unit {0})
  create_many [] s = (ok tt, s)
  create_many (b ∷ bs) s =
      let rest = create_many bs (c.insert_one b s) in
      if ltb 0 (c.count (same_key b) s) then (err duplicate_key, s) else rest

  unfoldable pub list : ℕ → Bool → Option (List ℕ) → B → List BlockedUser
  list uid only_enabled recipients s =
      c.find (blocked_by uid only_enabled recipients) find_all_limit s

  unfoldable pub blockers : ℕ → Bool → Option (List ℕ) → B → List BlockedUser
  blockers uid only_enabled recipients s =
      c.find (blocker_of uid only_enabled recipients) find_all_limit s

  unfoldable pub enable : ℕ → Bool → B → B
  enable uid enabled = c.update_many (λ b. b.user_id == uid) (λ b. record b { enabled = enabled })

  unfoldable pub delete_blocked_user : ℕ → Option (List ℕ) → B → B
  delete_blocked_user uid ids s =
      (c.delete_many (λ b. b.user_id == uid && among ids b.blocked_user_id) s).0

  unfoldable pub delete_all_blocks : ℕ → B → B
  delete_all_blocks uid s = (c.delete_many (λ b. b.user_id == uid || b.blocked_user_id == uid) s).0
