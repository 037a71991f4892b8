-- ===== src/Session/Kept.antt =====
-- The methods of the session service keep the devices and the sockets of every user distinct.
use sama_server.Prelude.{
  ℕ, ◌≡◌, refl, sym, ◌∙◌, subst, Bool, true, false, not, ◌||◌, List, [], ◌∷◌, Option, none, some,
  if◌then◌else◌, arith, Bool-cases, inl, inr, Option-cases,
}
use sama_server.Prelude.Text.{Text, same_text, includes_text}
use sama_server.Redis.{Redis}
use sama_server.Session.{
  add_user_device_connection, ActiveSessions, or_else, get_session_user_id, get_device_id,
  list_user_device_local, get_session, put_devices, map_delete, update_params, remove_connections,
}
use sama_server.Session.Keys.{NodeUser, users_set_cache_key}
use sama_server.Session.Node.{
  NodeConfig, NodeState, list_user_device, filter_actual_device_ids, remove_all_user_device_data,
  remove_last_user_device, remove_user_data, delete_user_data, list_node_user_devices, text_or,
  is_given, session_node_key, add_user_device_data_transaction, delete_node_connections,
}
use sama_server.Session.Lifecycle.{
  store_user_node_data, connect_device, remove_known_session, remove_user_session,
  remove_all_user_sessions, set_session_inactive_state, clear_node_users_session, leave_nodes,
  organization_of, null_text, remove_users_data,
}
use sama_server.Session.Distinct.{IsConnected}
use sama_server.Session.Connected.{add_user_device_connection-IsConnected}
use sama_server.Session.Presence.{filtered_active}
use sama_server.Session.Closing.{remove_connections-IsConnected}

module _ {S : Type 0} where
  if_active :
      {A : Type 0} (b : Bool) (x y : A × NodeState S) (a : ActiveSessions)
      → x.1.active ≡ a
      → y.1.active ≡ a
      → (if b then x else y).1.active ≡ a
  if_active true x y a hx hy = hx
  if_active false x y a hx hy = hy

  if_IsConnected :
      (b : Bool) (x y : NodeState S)
      → IsConnected x.active
      → IsConnected y.active
      → IsConnected (if b then x else y).active
  if_IsConnected true x y hx hy = hx
  if_IsConnected false x y hx hy = hy

  pair_IsConnected :
      {A : Type 0} (b : Bool) (x y : A × NodeState S)
      → IsConnected x.1.active
      → IsConnected y.1.active
      → IsConnected (if b then x else y).1.active
  pair_IsConnected true x y hx hy = hx
  pair_IsConnected false x y hx hy = hy

removed-IsConnected :
    (uid : Text) (a : ActiveSessions) → IsConnected a → IsConnected (put_devices uid none a)
removed-IsConnected uid a h v = elim (Bool-cases (same_text v uid)) [
  | inl e ↦ rw e ((λ d. omega arith), λ k. omega arith)
  | inr e ↦ rw e (h v)
]

module _ {S : Type 0} (r : Redis S) (cfg : NodeConfig) where
  pub listed_active :
      (org uid : Text) (flag : Bool) (n : NodeState S)
      → (list_user_device r cfg org uid flag n).1.active ≡ n.active
  unfolding list_user_device
  listed_active org uid flag n =
      let ids = r.s_members (users_set_cache_key org uid) n.redis in
      if_active cfg.is_stand_alone_node (list_user_device_local uid n.active, n)
        (if flag then filter_actual_device_ids r cfg org uid ids n else (ids, n)) n.active refl
        (if_active flag (filter_actual_device_ids r cfg org uid ids n) (ids, n) n.active
          (filtered_active r cfg org uid ids n) refl)

  pub removed_active :
      (org uid device : Text) (n : NodeState S)
      → (remove_all_user_device_data r cfg org uid device n).1.active ≡ n.active
  unfolding remove_all_user_device_data
  removed_active org uid device n = listed_active org uid true (record n { redis = _ })

  last_removed_active :
      (org uid device : Text) (n : NodeState S)
      → (remove_user_data r cfg org uid device n).1.active ≡ n.active
  unfolding remove_user_data remove_last_user_device
  last_removed_active org uid device n = listed_active org uid false (record n { redis = _ })

  all_removed_active :
      (us : List NodeUser) (n : NodeState S) → (remove_users_data r cfg us n).1.active ≡ n.active
  unfolding remove_users_data
  all_removed_active [] n = refl
  all_removed_active (u ∷ us) n =
      all_removed_active us (remove_user_data r cfg u.organization_id u.user_id u.device_id n).1
      ∙ last_removed_active u.organization_id u.user_id u.device_id n

  deleted_active :
      (org uid : Text) (n : NodeState S) → (delete_user_data r cfg org uid n).active ≡ n.active
  unfolding delete_user_data
  deleted_active org uid n = listed_active org uid false n

  pub moved :
      (m n : NodeState S) → m.active ≡ n.active → IsConnected n.active → IsConnected m.active
  moved m n e h = subst (λ a. IsConnected a) (sym e) h

  pub stored-IsConnected :
      (socket : ℕ) (org uid device : Text) (n : NodeState S)
      → IsConnected n.active
      → IsConnected (store_user_node_data r cfg socket org uid device n).active
  unfolding store_user_node_data update_params
  stored-IsConnected socket org uid device n h =
      let m : NodeState S = record n {
        active =
            update_params socket (λ p. record p { node_endpoint = some cfg.cluster_endpoint })
              n.active;
      } in
      let m1 = (list_user_device r cfg org uid false m).1 in
      let same : IsConnected m1.active = moved m1 m (listed_active org uid false m) h in
      let gone = (remove_all_user_device_data r cfg org uid device m1).1 in
      let listed = includes_text device (list_user_device r cfg org uid false m).0 in
      let m2 = if listed then gone else m1 in
      let stored : NodeState S = record m2 {
        redis =
            add_user_device_data_transaction r cfg (some cfg.cluster_endpoint) org uid device
              ((session_node_key, cfg.cluster_endpoint) ∷ []) m2.redis;
      } in
      if_IsConnected cfg.is_stand_alone_node m stored h
        (if_IsConnected listed gone m1 (moved gone m1 (removed_active org uid device m1) same) same)

  pub connect_device-IsConnected :
      (socket : ℕ) (org uid device : Text) (n : NodeState S)
      → IsConnected n.active
      → IsConnected (connect_device r cfg socket org uid device n).active
  unfolding connect_device
  connect_device-IsConnected socket org uid device n h =
      let m : NodeState S = record n {
        active = (add_user_device_connection socket org uid device n.active).1;
      } in
      let stored = store_user_node_data r cfg socket org uid device m in
      let good : IsConnected stored.active =
        stored-IsConnected socket org uid device m
          (add_user_device_connection-IsConnected socket org uid device n.active h) in
      elim (Option-cases
        (add_user_device_connection socket org uid device n.active).0.same_socket_connection) [
          | inl e ↦ rw (connect_device, e) good
          | inr (c, e) ↦
              rw (connect_device, e)
                (moved (remove_all_user_device_data r cfg org uid c.device_id stored).1 stored
                  (removed_active org uid c.device_id stored) good)
        ]

  known-IsConnected :
      (socket : ℕ) (uid : Text) (device : Option Text) (n : NodeState S)
      → IsConnected n.active
      → IsConnected (remove_known_session r cfg socket uid device n).1.active
  unfolding remove_known_session
  known-IsConnected socket uid device n h =
      let org = organization_of (get_session socket n.active) in
      let m : NodeState S = record n {
        active = (remove_connections socket uid device n.active).1;
      } in
      let good : IsConnected m.active =
        remove_connections-IsConnected socket uid device n.active h in
      let gone = remove_all_user_device_data r cfg org uid (text_or device []) m in
      pair_IsConnected (not (is_given device) || cfg.is_stand_alone_node)
        ((remove_connections socket uid device n.active).0, m) gone good
        (moved gone.1 m (removed_active org uid (text_or device []) m) good)

  pub remove_user_session-IsConnected :
      (socket : ℕ) (user device : Option Text) (n : NodeState S)
      → IsConnected n.active
      → IsConnected (remove_user_session r cfg socket user device n).1.active
  unfolding remove_user_session
  remove_user_session-IsConnected socket user device n h =
      let uid = text_or (or_else user (get_session_user_id socket n.active)) null_text in
      known-IsConnected socket uid (or_else device (get_device_id socket uid n.active)) n h

  pub remove_all_user_sessions-IsConnected :
      (socket : ℕ) (n : NodeState S)
      → IsConnected n.active
      → IsConnected (remove_all_user_sessions r cfg socket n).active
  unfolding remove_all_user_sessions
  remove_all_user_sessions-IsConnected socket n h =
      elim (Option-cases (get_session socket n.active)) [
        | inl e ↦ rw (remove_all_user_sessions, e) h
        | inr (session, e) ↦
            let uid = session.user_id in
            let org = session.organization_id in
            let a = put_devices uid none n.active in
            let m : NodeState S = record n {
              active = record a { sessions = map_delete socket a.sessions };
            } in
            let good : IsConnected m.active = removed-IsConnected uid n.active h in
            let (ids, m1) = list_user_device r cfg org uid false m in
            let left : NodeState S = record m1 { redis = leave_nodes r cfg org uid ids m1.redis } in
            let deleted = delete_user_data r cfg org uid left in
            rw (remove_all_user_sessions, e)
              (if_IsConnected cfg.is_stand_alone_node m deleted good (
                moved deleted left (deleted_active org uid left)
                  (moved m1 m (listed_active org uid false m) good)))
      ]

  pub set_session_inactive_state-IsConnected :
      (socket : ℕ) (inactive : Bool) (n : NodeState S)
      → IsConnected n.active
      → IsConnected (set_session_inactive_state r cfg socket inactive n).1.active
  unfolding set_session_inactive_state update_params
  set_session_inactive_state-IsConnected socket inactive n h =
      elim (Option-cases (get_session socket n.active)) [
        | inl e ↦ rw (set_session_inactive_state, e) h
        | inr (session, e) ↦ rw (set_session_inactive_state, e) h
      ]

  pub clear_node_users_session-IsConnected :
      (endpoint : Text) (n : NodeState S)
      → IsConnected n.active
      → IsConnected (clear_node_users_session r cfg endpoint n).1.active
  unfolding clear_node_users_session
  clear_node_users_session-IsConnected endpoint n h =
      let users = list_node_user_devices r endpoint n.redis in
      let (last, m) = remove_users_data r cfg users n in
      let emptied : NodeState S = record m { redis = delete_node_connections r endpoint m.redis } in
      pair_IsConnected cfg.is_stand_alone_node (none, n) (some last, emptied) h
        (moved m n (all_removed_active users n) h)
