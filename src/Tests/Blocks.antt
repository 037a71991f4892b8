-- ===== src/Tests/Blocks.antt =====
-- Blocking, unblocking and switching the block list of the sample users.
use sama_server.Prelude.{
  ℕ, Bool, ◌≤◌, arith, count, ◌==◌, ◌≡◌, ◌↔◌, ◌&&◌, refl, false, [], ◌∷◌, if◌then◌else◌, includes,
}
use sama_server.Errors.{ok, err, block_self, empty_batch, duplicate_key}
use sama_server.Store.{BlockedUser, Store}
use sama_server.BlockList.{
  block_of, block_many, unblock, enable_blocks, list_mutual_blocked_ids, remove_all_blocks,
}
use sama_server.BlockList.Effect.{block_many_refused, blocks_out, blocks_in}
use sama_server.BlockList.Lifting.{
  blocks_of, unblock-list_mutual, enable_blocks_lem, remove_all_blocks-list_mutual,
}
use sama_server.Tests.Samples.{in_memory, sample, code}

-- 1 has blocked 2 and 3.
abbrev blocked : Store in_memory
blocked = record sample { blocked_users = block_of 9 1 3 ∷ block_of 9 1 2 ∷ [] }

block :
    block_many in_memory 9 1 (2 ∷ 3 ∷ []) sample
    ≡ (ok (block_of 9 1 2 ∷ block_of 9 1 3 ∷ []), blocked)
unfolding code
block = refl

block_many_refused_example :
    (block_many in_memory 9 1 (1 ∷ 2 ∷ []) blocked ≡ (err block_self, blocked))
    × (block_many in_memory 9 1 [] blocked ≡ (err empty_batch, blocked))
    × ((s : Store in_memory) × ((block_many in_memory 9 1 (2 ∷ []) blocked ≡ (err duplicate_key, s))
          × ((r : BlockedUser → Bool)
              → count r (block_of 9 1 3 ∷ block_of 9 1 2 ∷ []) ≤ count r s.blocked_users)))
block_many_refused_example =
    block_many_refused in_memory 9 1 2 (1 ∷ 2 ∷ []) (2 ∷ []) blocked refl refl refl (omega arith)

stopped : list_mutual_blocked_ids in_memory 2 (1 ∷ []) blocked ≡ 1 ∷ []
unfolding code
stopped = refl

unblock-list_mutual_example :
    ((v w : ℕ)
      → blocks_of in_memory v w (unblock in_memory 1 (2 ∷ []) blocked)
        ≡ (if v == 1 && includes w (2 ∷ []) then 0 else blocks_of in_memory v w blocked))
    × ((list_mutual_blocked_ids in_memory 1 (2 ∷ []) (unblock in_memory 1 (2 ∷ []) blocked) ≡ [])
        ↔ (blocks_in in_memory 1 (2 ∷ []) blocked ≡ 0))
unblock-list_mutual_example = unblock-list_mutual in_memory 1 (2 ∷ []) blocked refl

enable_blocks_lem_example :
    (blocks_out in_memory 1 (2 ∷ []) (enable_blocks in_memory 1 false blocked) ≡ 0)
    × (blocks_in in_memory 1 (2 ∷ []) (enable_blocks in_memory 1 false blocked)
        ≡ blocks_in in_memory 1 (2 ∷ []) blocked)
enable_blocks_lem_example = enable_blocks_lem in_memory 1 false (2 ∷ []) blocked refl

remove_all_blocks-list_mutual_example :
    list_mutual_blocked_ids in_memory 1 (2 ∷ 3 ∷ []) (remove_all_blocks in_memory 1 blocked) ≡ []
remove_all_blocks-list_mutual_example =
    remove_all_blocks-list_mutual in_memory 1 (2 ∷ 3 ∷ []) blocked
