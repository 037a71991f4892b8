-- ===== src/BlockList/Lifting.antt =====
-- What unblocking and switching the block list do to the check of a sender.
use sama_server.Prelude.{
  ℕ, ◌==◌, ◌≡◌, ◌↔◌, refl, sym, ◌∙◌, Bool, true, false, not, ◌&&◌, ◌||◌, List, [], some,
  if◌then◌else◌, includes, arith, Bool-cases, inl, inr, ==_iff,
}
use sama_server.Mongo.Counting.{count_ext, count_zero}
use sama_server.Store.{BlockedUser, Driver, Store}
use sama_server.Repositories.BlockedUsers.{
  blocked_by, blocker_of, enable, delete_blocked_user, delete_all_blocks,
}
use sama_server.BlockList.Effect.{blocks_out, blocks_in, list_mutual_blocked_ids-nil}
use sama_server.BlockList.{unblock, list_mutual_blocked_ids, enable_blocks, remove_all_blocks}

module _ (db : Driver) where
  open db use {blocked_users}

  -- The blocks of w by v, switched on or off.
  abbrev pub blocks_of : ℕ → ℕ → Store db → ℕ
  blocks_of v w s =
      blocked_users.count (λ b. b.user_id == v && b.blocked_user_id == w) s.blocked_users

  unblock-blocks_of :
      (uid v w : ℕ) (ids : List ℕ) (s : Store db)
      → blocks_of v w (unblock db uid ids s)
        ≡ (if v == uid && includes w ids then 0 else blocks_of v w s)
  unfolding unblock delete_blocked_user
  unblock-blocks_of uid v w ids s =
      let q = λ (b : BlockedUser). b.user_id == uid && includes b.blocked_user_id ids in
      blocked_users.count-delete_many (λ b. b.user_id == v && b.blocked_user_id == w) q
        s.blocked_users
      ∙ elim (Bool-cases (v == uid && includes w ids)) [
        | inl e ↦ rw e (count_zero blocked_users s.blocked_users (λ b. lifted b e))
        | inr e ↦ rw e (count_ext blocked_users s.blocked_users (λ b. left b e))
      ]
    where
      same : (b : BlockedUser) → Bool
      same b = b.user_id == v && b.blocked_user_id == w

      unchanged :
          (b : BlockedUser)
          → same b ≡ true
          → (b.user_id == uid && includes b.blocked_user_id ids) ≡ (v == uid && includes w ids)
      unchanged b h =
          rw ((==_iff b.user_id v).0 (ground arith), (==_iff b.blocked_user_id w).0 (ground arith))
            refl

      lifted :
          (b : BlockedUser)
          → (v == uid && includes w ids) ≡ true
          → (same b && not (b.user_id == uid && includes b.blocked_user_id ids)) ≡ false
      lifted b e = elim (Bool-cases (same b)) [
        | inl h ↦ rw (h, unchanged b h, e) refl
        | inr h ↦ rw h refl
      ]

      left :
          (b : BlockedUser)
          → (v == uid && includes w ids) ≡ false
          → (same b && not (b.user_id == uid && includes b.blocked_user_id ids)) ≡ same b
      left b e = elim (Bool-cases (same b)) [
        | inl h ↦ rw (h, unchanged b h, e) refl
        | inr h ↦ rw h refl
      ]

  unblock-blocks_in :
      (uid : ℕ) (ids : List ℕ) (s : Store db)
      → includes uid ids ≡ false
      → (list_mutual_blocked_ids db uid ids (unblock db uid ids s) ≡ [])
        ↔ (blocks_in db uid ids s ≡ 0)
  unfolding unblock delete_blocked_user
  unblock-blocks_in uid ids s h =
      let (to, from) = list_mutual_blocked_ids-nil db uid ids (unblock db uid ids s) in
      let q = λ (b : BlockedUser). b.user_id == uid && includes b.blocked_user_id ids in
      let o : blocks_out db uid ids (unblock db uid ids s) ≡ 0 =
        blocked_users.count-delete_many (blocked_by uid true (some ids)) q s.blocked_users
        ∙ count_zero blocked_users s.blocked_users (λ b. ground arith) in
      let i : blocks_in db uid ids (unblock db uid ids s) ≡ blocks_in db uid ids s =
        blocked_users.count-delete_many (blocker_of uid true (some ids)) q s.blocked_users
        ∙ count_ext blocked_users s.blocked_users (λ b. kept b) in
      (λ e. sym i ∙ (to e).1, λ e. from (o, i ∙ e))
    where
      kept :
          (b : BlockedUser)
          → (blocker_of uid true (some ids) b
              && not (b.user_id == uid && includes b.blocked_user_id ids))
            ≡ blocker_of uid true (some ids) b
      kept b = elim (Bool-cases (b.blocked_user_id == uid)) [
        | inl e ↦ rw ((==_iff b.blocked_user_id uid).0 e, h) (ground arith)
        | inr e ↦ ground arith
      ]

  -- Unblocking lifts all blocks of the named users by the user, switched on or off, and no block of
  -- anyone else or by anyone else: whether the check still stops the user and the named ones depends on
  -- the blocks the other way alone. The user is not among the named ones.
  pub unblock-list_mutual :
      (uid : ℕ) (ids : List ℕ) (s : Store db)
      → includes uid ids ≡ false
      → ((v w : ℕ)
          → blocks_of v w (unblock db uid ids s)
            ≡ (if v == uid && includes w ids then 0 else blocks_of v w s))
        × ((list_mutual_blocked_ids db uid ids (unblock db uid ids s) ≡ [])
            ↔ (blocks_in db uid ids s ≡ 0))
  unblock-list_mutual uid ids s h =
      ((λ v w. unblock-blocks_of uid v w ids s), unblock-blocks_in uid ids s h)

  -- Switching the list off makes the user's own blocks ineffective, and switching it on makes all of
  -- them effective again; the blocks by others stay as they were.
  pub enable_blocks_lem :
      (uid : ℕ) (flag : Bool) (recipients : List ℕ) (s : Store db)
      → includes uid recipients ≡ false
      → (blocks_out db uid recipients (enable_blocks db uid flag s) ≡ (
          if flag
          then blocked_users.count (blocked_by uid false (some recipients)) s.blocked_users
          else 0))
        × (blocks_in db uid recipients (enable_blocks db uid flag s)
            ≡ blocks_in db uid recipients s)
  unfolding enable_blocks enable
  enable_blocks_lem uid flag recipients s h = (out flag, inn)
    where
      switched : Bool → BlockedUser → BlockedUser
      switched f b = if b.user_id == uid then record b { enabled = f } else b

      count_after :
          (r : BlockedUser → Bool) (f : Bool)
          → blocked_users.count r (enable_blocks db uid f s).blocked_users
            ≡ blocked_users.count (λ b. r (switched f b)) s.blocked_users
      count_after r f =
          blocked_users.count-update_many r (λ b. b.user_id == uid) (λ b. record b { enabled = f })
            s.blocked_users

      out :
          (f : Bool)
          → blocks_out db uid recipients (enable_blocks db uid f s) ≡ (
              if f
              then blocked_users.count (blocked_by uid false (some recipients)) s.blocked_users
              else 0)
      out true =
          count_after (blocked_by uid true (some recipients)) true
          ∙ count_ext blocked_users s.blocked_users (λ b. ground arith)
      out false =
          count_after (blocked_by uid true (some recipients)) false
          ∙ count_zero blocked_users s.blocked_users (λ b. ground arith)

      same :
          (b : BlockedUser)
          → blocker_of uid true (some recipients) (switched flag b)
            ≡ blocker_of uid true (some recipients) b
      same b = elim (Bool-cases (b.user_id == uid)) [
        | inl e ↦ rw (e, (==_iff b.user_id uid).0 e, h) (ground arith)
        | inr e ↦ rw e refl
      ]

      inn :
          blocks_in db uid recipients (enable_blocks db uid flag s) ≡ blocks_in db uid recipients s
      inn =
          count_after (blocker_of uid true (some recipients)) flag
          ∙ count_ext blocked_users s.blocked_users same

  -- After the removal of a user nobody is stopped because of that user.
  pub remove_all_blocks-list_mutual :
      (uid : ℕ) (recipients : List ℕ) (s : Store db)
      → list_mutual_blocked_ids db uid recipients (remove_all_blocks db uid s) ≡ []
  unfolding remove_all_blocks delete_all_blocks
  remove_all_blocks-list_mutual uid recipients s =
      (list_mutual_blocked_ids-nil db uid recipients (remove_all_blocks db uid s)).1 (
        blocked_users.count-delete_many (blocked_by uid true (some recipients)) q s.blocked_users
            ∙ count_zero blocked_users s.blocked_users (λ b. ground arith),
        blocked_users.count-delete_many (blocker_of uid true (some recipients)) q s.blocked_users
            ∙ count_zero blocked_users s.blocked_users (λ b. ground arith),
      )
    where
      q : BlockedUser → Bool
      q b = b.user_id == uid || b.blocked_user_id == uid
