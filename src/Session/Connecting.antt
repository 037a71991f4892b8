-- ===== src/Session/Connecting.antt =====
-- What connecting a device of a user, as user/connect and user/auth do, leaves in Redis.
use sama_server.Prelude.{
  ℕ, ◌≡◌, refl, ◌∙◌, true, false, not, none, some, find, is_empty, any, any-count, arith, inl, inr,
  Option-cases,
}
use sama_server.Prelude.Text.{Text, same_text_refl, includes_text}
use sama_server.Redis.{Redis}
use sama_server.Session.{
  add_user_device_connection, ActiveSessions, get_user_devices, has_device, has_socket,
  get_device_id, is_device_id,
}
use sama_server.Session.Keys.{users_set_cache_key}
use sama_server.Session.Node.{NodeConfig, NodeState, is_actual, remove_all_user_device_data}
use sama_server.Session.Lifecycle.{store_user_node_data, connect_device}
use sama_server.Session.Distinct.{IsConnected}
use sama_server.Session.Connected.{connected, connected_count}
use sama_server.Session.Storing.{remove_all_user_device_data_lem, store_user_node_data_lem}

module _ {S : Type 0} (r : Redis S) (cfg : NodeConfig)
    (cluster : cfg.is_stand_alone_node ≡ false) where
  stored_actual :
      (socket : ℕ) (org uid device : Text) (n : NodeState S)
      → is_empty cfg.cluster_endpoint ≡ false
      → any (has_device device) (get_user_devices uid n.active) ≡ true
      → is_actual r cfg uid device (store_user_node_data r cfg socket org uid device n) ≡ true
  unfolding is_actual
  stored_actual socket org uid device n host there =
      let stored = store_user_node_data_lem r cfg cluster socket org uid device device n in
      rw (stored.1.0, stored.1.1 uid, host, there, same_text_refl cfg.cluster_endpoint) refl

  device_there :
      (socket : ℕ) (org uid device : Text) (a : ActiveSessions)
      → IsConnected a
      → any (has_device device) (get_user_devices uid (connected socket org uid device a)) ≡ true
  device_there socket org uid device a h =
      any-count (has_device device) (get_user_devices uid (connected socket org uid device a))
      ∙ (rw (connected_count socket org uid device a (has_device device) h, same_text_refl device)
          (ground arith))

  stored_connected : (socket : ℕ) (org uid device : Text) (n : NodeState S) → NodeState S
  stored_connected socket org uid device n =
      store_user_node_data r cfg socket org uid device
        (record n { active = connected socket org uid device n.active })

  connecting :
      (socket : ℕ) (org uid device : Text) (n : NodeState S)
      → connect_device r cfg socket org uid device n
        ≡ elim (find (has_socket socket) (get_user_devices uid n.active)) [
          | none ↦ stored_connected socket org uid device n
          | some c ↦
              (remove_all_user_device_data r cfg org uid c.device_id
                (stored_connected socket org uid device n)).1
        ]
  unfolding connect_device add_user_device_connection connected stored_connected
  connecting socket org uid device n = refl

  -- In a cluster where no user has a device or a socket twice, a device that connects is then in the
  -- user's set, except if the socket had this device of the user already: it is removed at the end.
  pub connect_device_lem :
      (socket : ℕ) (org uid device : Text) (n : NodeState S)
      → IsConnected n.active
      → is_empty cfg.cluster_endpoint ≡ false
      → includes_text device (
          r.s_members
            (users_set_cache_key org uid)
            (connect_device r cfg socket org uid device n).redis)
        ≡ not (is_device_id device (get_device_id socket uid n.active))
  unfolding stored_connected
  connect_device_lem socket org uid device n h host =
      let m : NodeState S = record n { active = connected socket org uid device n.active } in
      let stored = store_user_node_data_lem r cfg cluster socket org uid device device m in
      let inside : includes_text device (
            r.s_members (users_set_cache_key org uid)
              (stored_connected socket org uid device n).redis)
          ≡ true =
        stored.0 ∙ (rw (same_text_refl device) refl) in
      elim (Option-cases (find (has_socket socket) (get_user_devices uid n.active))) [
        | inl none_there ↦ rw (connecting socket org uid device n, none_there) inside
        | inr (c, there) ↦
            let removed =
              remove_all_user_device_data_lem r cfg cluster org uid c.device_id device
                (stored_connected socket org uid device n) in
            let actual =
              stored_actual socket org uid device m host
                (device_there socket org uid device n.active h) in
            rw (connecting socket org uid device n, there)
              (removed.0 ∙ (rw (inside, actual) (ground arith)))
      ]
