-- ===== src/Tests/Presence.antt =====
-- A user's devices on a node of a cluster.
use sama_server.Prelude.{◌≡◌, refl, true, false, not, ◌&&◌, [], ◌∷◌, filter}
use sama_server.Prelude.Text.{Text, includes_text}
use sama_server.Redis.Memory.{Stored, redis, empty_redis}
use sama_server.Session.{no_sessions, get_device_id, is_device_id}
use sama_server.Session.Keys.{users_set_cache_key}
use sama_server.Session.Node.{NodeConfig, NodeState, list_user_device, is_actual}
use sama_server.Session.Lifecycle.{store_user_node_data, connect_device}
use sama_server.Session.Connected.{connected, connected-IsConnected}
use sama_server.Session.Presence.{list_user_device-actual}
use sama_server.Session.Connecting.{connect_device_lem}
use sama_server.Tests.Sessions.{org, alice, phone, no_sessions-IsConnected}

abbrev node : NodeConfig
node = record { is_stand_alone_node = false; cluster_endpoint = 104 ∷ [] }

-- The phone is connected, and Redis has nothing of it yet.
abbrev started : NodeState Stored
started = record { active = connected 2 org alice phone no_sessions; redis = empty_redis }

abbrev kept : NodeState Stored
kept = store_user_node_data redis node 2 org alice phone started

list_user_device-actual_example :
    ((list_user_device redis node org alice true kept).0
      ≡ filter
          (λ d. is_actual redis node alice d kept)
          (redis.s_members (users_set_cache_key org alice) kept.redis))
    × (((x : Text)
          → includes_text x (
              redis.s_members
                (users_set_cache_key org alice)
                (list_user_device redis node org alice true kept).1.redis)
            ≡ (includes_text x (redis.s_members (users_set_cache_key org alice) kept.redis)
                && is_actual redis node alice x kept))
        × ((list_user_device redis node org alice true kept).1.active ≡ kept.active))
list_user_device-actual_example = list_user_device-actual redis node org alice kept refl

-- The same device authenticates again on its socket.
connect_device_lem_example :
    includes_text phone (
      redis.s_members
        (users_set_cache_key org alice)
        (connect_device redis node 2 org alice phone started).redis)
    ≡ not (is_device_id phone (get_device_id 2 alice started.active))
connect_device_lem_example =
    connect_device_lem redis node refl 2 org alice phone started
      (connected-IsConnected 2 org alice phone no_sessions no_sessions-IsConnected) refl
