-- ===== src/BlockList/Effect.antt =====
-- When two users can talk, and what blocking, unblocking and switching the list do to that.
use sama_server.BlockList.Batch.{
  count-create_many, create_many_cases, create_many-Keeps, create_many_refused,
}
use Prim.Native.Nat.{min}
use sama_server.Prelude.{
  false, not, ◌&&◌, ◌∙◌, ◌≤◌, ap, subst, is_empty, ℕ, ◌+◌, ◌<◌, ◌==◌, ◌≡◌, ◌≢◌, ◌↔◌, refl, Bool,
  true, List, [], ◌∷◌, map, some, includes, length, length-append, arith, count, Bool-cases, inl,
  inr, ==_iff, ==_refl,
}
use sama_server.Errors.{
  Result, ok, err, require, bind_ok, required, returned, block_self, empty_batch, duplicate_key,
}
use sama_server.Store.{BlockedUser, Driver, Store}
use sama_server.Repositories.BlockedUsers.{blocked_by, blocker_of, create_many, list, blockers}
use sama_server.BlockList.{block_of, insert_blocks, block_many, list_mutual_blocked_ids}

length-map {ℓ κ} :
    {A : Type ℓ} {B : Type κ} (f : A → B) (xs : List A) → length (map f xs) ≡ length xs
length-map f [] = refl
length-map f (x ∷ xs) = omega (arith, length-map f xs)

length-zero {ℓ} : {A : Type ℓ} (xs : List A) → (xs ≡ []) ↔ (length xs ≡ 0)
length-zero [] = (λ _. refl, λ _. refl)
length-zero (x ∷ xs) = (λ e. cc, λ e. absurd (omega arith))

module _ (db : Driver) where
  open db use {blocked_users}

  -- The enabled blocks by a user of the recipients, and of the user by one of them.
  abbrev pub blocks_out : ℕ → List ℕ → Store db → ℕ
  blocks_out uid recipients s =
      blocked_users.count (blocked_by uid true (some recipients)) s.blocked_users

  abbrev pub blocks_in : ℕ → List ℕ → Store db → ℕ
  blocks_in uid recipients s =
      blocked_users.count (blocker_of uid true (some recipients)) s.blocked_users

  length-list_mutual_blocked_ids :
      (uid : ℕ) (recipients : List ℕ) (s : Store db)
      → length (list_mutual_blocked_ids db uid recipients s)
        ≡ min 100 (blocks_out uid recipients s) + min 100 (blocks_in uid recipients s)
  unfolding list_mutual_blocked_ids list blockers
  length-list_mutual_blocked_ids uid recipients s =
      let out = list blocked_users uid true (some recipients) s.blocked_users in
      let inn = blockers blocked_users uid true (some recipients) s.blocked_users in
      omega (
        arith,
        length-append (map (λ b. b.blocked_user_id) out) (map (λ b. b.user_id) inn),
        length-map (λ b. b.blocked_user_id) out,
        length-map (λ b. b.user_id) inn,
        blocked_users.length-find (blocked_by uid true (some recipients)) 100 s.blocked_users
            (omega arith),
        blocked_users.length-find (blocker_of uid true (some recipients)) 100 s.blocked_users
            (omega arith),
      )

  pub list_mutual_blocked_ids-nil :
      (uid : ℕ) (recipients : List ℕ) (s : Store db)
      → (list_mutual_blocked_ids db uid recipients s ≡ [])
        ↔ ((blocks_out uid recipients s ≡ 0) × (blocks_in uid recipients s ≡ 0))
  list_mutual_blocked_ids-nil uid recipients s =
      let total = length-list_mutual_blocked_ids uid recipients s in
      let (to, from) = length-zero (list_mutual_blocked_ids db uid recipients s) in
      (λ e. let z = to e in (omega arith, omega arith), λ (o, i). from (omega arith))

  count-blocks :
      (r : BlockedUser → Bool) (org uid v : ℕ) (ids : List ℕ)
      → r (block_of org uid v) ≡ true
      → includes v ids ≡ true
      → 0 < count r (map (block_of org uid) ids)
  count-blocks r org uid v [] h e = cc
  count-blocks r org uid v (x ∷ ids) h e = elim (Bool-cases (x == v)) [
    | inl same ↦ rw ((==_iff x v).0 same, h) (omega arith)
    | inr other ↦ ground (arith, count-blocks r org uid v ids h (rw other at e))
  ]

  block_many-eq-ok :
      (org uid : ℕ) (ids : List ℕ) (s s' : Store db) (bs : List BlockedUser)
      → block_many db org uid ids s ≡ (ok bs, s')
      → create_many blocked_users (map (block_of org uid) ids) s.blocked_users
        ≡ (ok tt, s'.blocked_users)
  unfolding block_many insert_blocks
  block_many-eq-ok org uid ids s s' bs h =
      let blocks = map (block_of org uid) ids in
      let (u1, s1, first, h1) = bind_ok (require (not (includes uid ids)) block_self s) _ bs s' h in
      let (u2, s2, second, h2) =
        bind_ok (require (not (is_empty blocks)) empty_batch s1) _ bs s' h1 in
      let (u3, s3, run, h3) = bind_ok (insert_blocks db blocks s2) _ bs s' h2 in
      let here : s2 ≡ s = required _ _ s1 s2 u2 second ∙ required _ _ s s1 u1 first in
      let (_, end) = returned blocks bs s3 s' h3 in
      let run' : insert_blocks db blocks s ≡ (ok tt, s') =
        subst (λ z. insert_blocks db blocks s ≡ (ok tt, z)) end
          (subst (λ z. insert_blocks db blocks z ≡ (ok tt, s3)) here run) in
      elim (create_many_cases db blocks s.blocked_users) [
        | inl (t', e) ↦
            e
            ∙ ap (λ z. (ok tt, z))
                (ap (λ (z : Store db). z.blocked_users)
                  (returned tt tt (record s { blocked_users = t' }) s'
                    (rw (insert_blocks, e) at run')).1)
        | inr (t', e) ↦ absurd (cc (rw (insert_blocks, e) at run'))
      ]

  -- A query that a new block passes counts it.
  block_many-counted :
      (r : BlockedUser → Bool) (org uid v : ℕ) (ids : List ℕ) (s s' : Store db)
      (bs : List BlockedUser)
      → block_many db org uid ids s ≡ (ok bs, s')
      → includes v ids ≡ true
      → r (block_of org uid v) ≡ true
      → 0 < blocked_users.count r s'.blocked_users
  block_many-counted r org uid v ids s s' bs h e p = omega (
    arith,
    count-create_many db r (map (block_of org uid) ids) s.blocked_users s'.blocked_users
        (block_many-eq-ok org uid ids s s' bs h),
    count-blocks r org uid v ids p e,
  )

  -- A successful call blocks every user of the request: afterwards the check stops both the user and
  -- each of them, for any recipients with the other one among them.
  pub block_many-blocks :
      (org uid v : ℕ) (ids to_v to_uid : List ℕ) (s s' : Store db) (bs : List BlockedUser)
      → block_many db org uid ids s ≡ (ok bs, s')
      → includes v ids ≡ true
      → includes v to_v ≡ true
      → includes uid to_uid ≡ true
      → (list_mutual_blocked_ids db uid to_v s' ≢ [])
        × (list_mutual_blocked_ids db v to_uid s' ≢ [])
  block_many-blocks org uid v ids to_v to_uid s s' bs h e mv mu = (
    λ z.
        let o = ((list_mutual_blocked_ids-nil uid to_v s').0 z).0 in
        let n =
          block_many-counted (blocked_by uid true (some to_v)) org uid v ids s s' bs h e
            (rw (==_refl uid, mv)) in
        absurd (omega arith),
    λ z.
        let o = ((list_mutual_blocked_ids-nil v to_uid s').0 z).1 in
        let n =
          block_many-counted (blocker_of v true (some to_uid)) org uid v ids s s' bs h e
            (rw (==_refl v, mu)) in
        absurd (omega arith),
  )

  -- A call that names the user is refused, and so is one that names nobody: neither changes anything.
  -- One that does not name the user, but someone whom the user has blocked already, switched on or
  -- off, is refused by the unique index, and after it all blocks of before are still there.
  pub block_many_refused :
      (org uid v : ℕ) (with_self ids : List ℕ) (s : Store db)
      → includes uid with_self ≡ true
      → includes uid ids ≡ false
      → includes v ids ≡ true
      → 0 < blocked_users.count (λ b. b.user_id == uid && b.blocked_user_id == v) s.blocked_users
      → (block_many db org uid with_self s ≡ (err block_self, s))
        × (block_many db org uid [] s ≡ (err empty_batch, s))
        × ((s' : Store db) × ((block_many db org uid ids s ≡ (err duplicate_key, s'))
              × ((r : BlockedUser → Bool)
                  → blocked_users.count r s.blocked_users
                    ≤ blocked_users.count r s'.blocked_users)))
  unfolding block_many insert_blocks
  block_many_refused org uid v with_self [] s mine self named there = absurd (cc)
  block_many_refused org uid v with_self (x ∷ ids) s mine self named there =
      let blocks = map (block_of org uid) (x ∷ ids) in
      let (t', e) = create_many_refused db org uid v (x ∷ ids) s.blocked_users named there in
      (
        rw (block_many, mine) refl,
        refl,
        (
          record s { blocked_users = t' },
          (
            rw (block_many, insert_blocks, self, e) refl,
            λ r.
                subst (λ z. blocked_users.count r s.blocked_users ≤ blocked_users.count r z)
                  (ap (λ (z : Result (Unit {0}) × db.BlockedUsers). z.1) e)
                  (create_many-Keeps db r blocks s.blocked_users),
          ),
        ),
      )
