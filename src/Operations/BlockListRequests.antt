-- ===== src/Operations/BlockListRequests.antt =====
-- app/providers/operations/block_list: the four requests on the caller's block list.
use sama_server.Prelude.{ℕ, Bool, true, List, map}
use sama_server.Errors.{Action, ◌>>=◌, ◌>>◌, return, read, write}
use sama_server.Store.{BlockedUser, Driver, Store}
use sama_server.Repositories.Users.{retrieve_existed_ids}
use sama_server.BlockList.{block_many, unblock, enable_blocks, list_blocks}

module _ (db : Driver) where
  -- Ids that are no users of the organization are left out.
  unfoldable pub block_users : ℕ → ℕ → List ℕ → Action (Store db) (List BlockedUser)
  block_users org uid ids = do
    existed ← read (λ s. retrieve_existed_ids db.users org ids s.users)
    block_many db org uid existed

  unfoldable pub enable_list : ℕ → Bool → Action (Store db) Bool
  enable_list uid enabled = do write (enable_blocks db uid enabled); return true

  unfoldable pub retrieve_list : ℕ → Action (Store db) (List ℕ)
  retrieve_list uid = do
    blocked ← read (list_blocks db uid)
    return (map (λ b. b.blocked_user_id) blocked)

  -- One id is asked for as a list of it.
  unfoldable pub unblock_users : ℕ → List ℕ → Action (Store db) (List ℕ)
  unblock_users uid ids = do write (unblock db uid ids); return ids
