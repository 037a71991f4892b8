-- ===== src/BlockList.antt =====
-- app/providers/services/block_list/index.js
pub mod Batch
pub mod Effect
pub mod Lifting
use sama_server.Prelude.{
  ℕ, ◌==◌, Bool, true, false, not, ◌&&◌, ◌||◌, List, [], ◌∷◌, ◌++◌, map, Option, none, some,
  if◌then◌else◌, includes, is_empty,
}
use sama_server.Errors.{
  Action, ◌>>=◌, ◌>>◌, bind, return, read, require, ok, err, block_self, empty_batch,
}
use sama_server.Store.{BlockedUser, Driver, Store}
use sama_server.Repositories.BlockedUsers.{
  create_many, list, blockers, enable, delete_blocked_user, delete_all_blocks,
}

abbrev pub block_of : ℕ → ℕ → ℕ → BlockedUser
block_of org uid blocked = record {
  organization_id = org;
  user_id = uid;
  blocked_user_id = blocked;
  enabled = true;
}

module _ (db : Driver) where
  unfoldable pub insert_blocks : List BlockedUser → Action (Store db) (Unit {0})
  insert_blocks blocks s =
      let r = create_many db.blocked_users blocks s.blocked_users in
      (r.0, record s { blocked_users = r.1 })

  unfoldable pub block_many : ℕ → ℕ → List ℕ → Action (Store db) (List BlockedUser)
  unfolding insert_blocks
  block_many org uid ids = do
    require (not (includes uid ids)) block_self
    let blocks = map (block_of org uid) ids
    require (not (is_empty blocks)) empty_batch
    insert_blocks blocks
    return blocks

  unfoldable pub unblock : ℕ → List ℕ → Store db → Store db
  unblock uid ids s = record s {
    blocked_users = delete_blocked_user db.blocked_users uid (some ids) s.blocked_users;
  }

  unfoldable pub unblock_all : ℕ → Store db → Store db
  unblock_all uid s = record s {
    blocked_users = delete_blocked_user db.blocked_users uid none s.blocked_users;
  }

  unfoldable pub enable_blocks : ℕ → Bool → Store db → Store db
  enable_blocks uid enabled s = record s {
    blocked_users = enable db.blocked_users uid enabled s.blocked_users;
  }

  unfoldable pub list_blocks : ℕ → Store db → List BlockedUser
  list_blocks uid s = list db.blocked_users uid false none s.blocked_users

  unfoldable pub list_mutual_blocked_ids : ℕ → List ℕ → Store db → List ℕ
  list_mutual_blocked_ids uid recipients s =
      map (λ b. b.blocked_user_id)
        (list db.blocked_users uid true (some recipients) s.blocked_users)
      ++ map (λ b. b.user_id) (blockers db.blocked_users uid true (some recipients) s.blocked_users)

  unfoldable pub remove_all_blocks : ℕ → Store db → Store db
  remove_all_blocks uid s = record s {
    blocked_users = delete_all_blocks db.blocked_users uid s.blocked_users;
  }
