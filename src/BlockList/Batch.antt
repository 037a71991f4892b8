-- ===== src/BlockList/Batch.antt =====
-- What the insertion of a batch of blocks leaves, and when the unique index refuses it.
use mathlib.Core.Bool.{false≢true}
use sama_server.Prelude.{
  ◌⊎◌, ◌∙◌, ◌≤◌, sym, ltb, lt→ltb, ℕ, ◌+◌, ◌<◌, ◌==◌, ◌≡◌, refl, Bool, true, List, [], ◌∷◌, map,
  includes, arith, count, Bool-cases, inl, inr, ==_iff,
}
use sama_server.Errors.{ok, err, returned, duplicate_key}
use sama_server.Store.{BlockedUser, Driver}
use sama_server.Repositories.BlockedUsers.{same_key, create_many}
use sama_server.BlockList.{block_of}

module _ (db : Driver) where
  open db use {blocked_users}

  pub count-create_many :
      (r : BlockedUser → Bool) (bs : List BlockedUser) (t t' : db.BlockedUsers)
      → create_many blocked_users bs t ≡ (ok tt, t')
      → blocked_users.count r t' ≡ count r bs + blocked_users.count r t
  unfolding create_many
  count-create_many r [] t t' h = rw (← (returned tt tt t t' h).1) (omega arith)
  count-create_many r (b ∷ bs) t t' h =
      elim (Bool-cases (ltb 0 (blocked_users.count (same_key b) t))) [
        | inl e ↦ absurd (cc (rw (e, create_many) at h))
        | inr e ↦ omega (
          arith,
          count-create_many r bs (blocked_users.insert_one b t) t' (rw (e, create_many) at h),
          blocked_users.count-insert_one r b t,
        )
      ]

  -- Only the unique index refuses a batch, and whatever becomes of it no block is lost.
  pub create_many_cases :
      (bs : List BlockedUser) (t : db.BlockedUsers)
      → ((t' : db.BlockedUsers) × (create_many blocked_users bs t ≡ (ok tt, t')))
        ⊎ ((t' : db.BlockedUsers) × (create_many blocked_users bs t ≡ (err duplicate_key, t')))
  unfolding create_many
  create_many_cases [] t = inl (t, refl)
  create_many_cases (b ∷ bs) t = elim (Bool-cases (ltb 0 (blocked_users.count (same_key b) t))) [
    | inl e ↦ inr (t, rw (e, create_many) refl)
    | inr e ↦ elim (create_many_cases bs (blocked_users.insert_one b t)) [
      | inl (t', run) ↦ inl (t', rw (e, create_many) run)
      | inr (t', run) ↦ inr (t', rw (e, create_many) run)
    ]
  ]

  pub create_many-Keeps :
      (r : BlockedUser → Bool) (bs : List BlockedUser) (t : db.BlockedUsers)
      → blocked_users.count r t ≤ blocked_users.count r (create_many blocked_users bs t).1
  unfolding create_many
  create_many-Keeps r [] t = omega arith
  create_many-Keeps r (b ∷ bs) t = elim (Bool-cases (ltb 0 (blocked_users.count (same_key b) t))) [
    | inl e ↦ rw (e, create_many) (omega arith)
    | inr e ↦
        rw (e, create_many)
          (omega (
            arith,
            create_many-Keeps r bs (blocked_users.insert_one b t),
            blocked_users.count-insert_one r b t,
          ))
  ]

  -- A batch with the key of a block that is there is refused.
  pub create_many_refused :
      (org uid v : ℕ) (ids : List ℕ) (t : db.BlockedUsers)
      → includes v ids ≡ true
      → 0 < blocked_users.count (same_key (block_of org uid v)) t
      → (t' : db.BlockedUsers) × (create_many blocked_users (map (block_of org uid) ids) t
          ≡ (err duplicate_key, t'))
  unfolding create_many
  create_many_refused org uid v [] t named there = absurd (cc)
  create_many_refused org uid v (x ∷ ids) t named there =
      elim (Bool-cases (ltb 0 (blocked_users.count (same_key (block_of org uid x)) t))) [
        | inl e ↦ (t, rw (e, create_many) refl)
        | inr e ↦ elim (Bool-cases (x == v)) [
          | inl same ↦ absurd (false≢true (sym e ∙ lt→ltb _ _ (rw ((==_iff x v).0 same) there)))
          | inr other ↦
              let (t', run) =
                create_many_refused org uid v ids (blocked_users.insert_one (block_of org uid x) t)
                  (rw other at named)
                  (omega (
                    arith,
                    there,
                    blocked_users.count-insert_one (same_key (block_of org uid v))
                        (block_of org uid x) t,
                  )) in
              (t', rw (e, create_many) run)
        ]
      ]
