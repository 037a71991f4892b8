-- ===== src/Repositories/Users.antt =====
-- app/providers/repositories/user/index.js, over its collection.
use sama_server.Prelude.{ℕ, ◌==◌, ◌&&◌, List, map, Option, includes}
use sama_server.Mongo.{Collection}
use sama_server.Store.{User}

module _ {U : Type 0} (c : Collection User U) where
  -- `findById` of the base repository
  unfoldable pub find_user : ℕ → U → Option User
  find_user uid s = c.find_one (λ u. u.id == uid) s

  -- the ids of the request that are users of the organization, in the order of the collection
  unfoldable pub retrieve_existed_ids : ℕ → List ℕ → U → List ℕ
  retrieve_existed_ids org ids s =
      map (λ u. u.id) (c.find_all (λ u. u.organization_id == org && includes u.id ids) s)

  unfoldable pub update_activity : ℕ → ℕ → U → U
  update_activity uid time =
      c.update_one (λ u. u.id == uid) (λ u. record u { recent_activity = time })
