-- ===== src/Session/Lifecycle.antt =====
-- The methods of app/providers/services/session/index.js that change this process and Redis together.
use sama_server.Prelude.{
  ℕ, Bool, false, not, ◌||◌, List, [], ◌∷◌, Option, none, some, if◌then◌else◌,
}
use sama_server.Prelude.Text.{Text, includes_text}
use sama_server.Errors.{Action, ok, err, type_error}
use sama_server.Redis.{Redis}
use sama_server.Session.{
  SocketSession, ActiveSessions, get_session, get_session_user_id, get_device_id, put_devices,
  map_delete, remove_connections, add_user_device_connection, update_params, or_else,
}
use sama_server.Session.Keys.{NodeUser, undefined_text}
use sama_server.Session.Node.{
  NodeConfig, NodeState, session_node_key, is_given, text_or, add_user_device_data_transaction,
  remove_all_user_device_data, remove_user_data, list_user_device, list_node_user_devices,
  delete_node_connections, retrieve_user_extra_params, remove_user_device_from_node,
  delete_user_data, add_user_extra_params, remove_user_extra_params,
}

-- SESSION_INACTIVE_STATE_KEY, "MOBILE_INACTIVE", and "true"
abbrev pub session_inactive_state_key : Text
session_inactive_state_key =
    77 ∷ 79 ∷ 66 ∷ 73 ∷ 76 ∷ 69 ∷ 95 ∷ 73 ∷ 78 ∷ 65 ∷ 67 ∷ 84 ∷ 73 ∷ 86 ∷ 69 ∷ []

abbrev pub true_text : Text
true_text = 116 ∷ 114 ∷ 117 ∷ 101 ∷ []

-- `session?.organizationId`, as it prints
abbrev pub organization_of : Option SocketSession → Text
organization_of none = undefined_text
organization_of (some s) = s.organization_id

-- "null"
abbrev pub null_text : Text
null_text = 110 ∷ 117 ∷ 108 ∷ 108 ∷ []

-- What `getDeviceId` gives, as it prints: null for a user with no entry, undefined where no connection
-- has the socket.
abbrev pub printed_device : ℕ → Text → ActiveSessions → Text
printed_device socket uid a = elim (a.devices uid) [
  | none ↦ null_text
  | some _ ↦ text_or (get_device_id socket uid a) undefined_text
]

module _ {S : Type 0} (r : Redis S) (cfg : NodeConfig) where
  unfoldable pub store_user_node_data : ℕ → Text → Text → Text → NodeState S → NodeState S
  store_user_node_data socket org uid device n =
      let endpoint = cfg.cluster_endpoint in
      let m : NodeState S = record n {
        active = update_params socket (λ p. record p { node_endpoint = some endpoint }) n.active;
      } in
      let (ids, m1) = list_user_device r cfg org uid false m in
      let m2 =
        if includes_text device ids
        then (remove_all_user_device_data r cfg org uid device m1).1
        else m1 in
      if cfg.is_stand_alone_node then m else record m2 {
        redis =
            add_user_device_data_transaction r cfg (some endpoint) org uid device
              ((session_node_key, endpoint) ∷ []) m2.redis;
      }

  -- The users' devices that were the last of their users, and the state after the loop.
  unfoldable pub remove_users_data : List NodeUser → NodeState S → List NodeUser × NodeState S
  unfolding remove_user_data
  remove_users_data [] n = ([], n)
  remove_users_data (u ∷ us) n =
      let (last, m) = remove_user_data r cfg u.organization_id u.user_id u.device_id n in
      let rest = remove_users_data us m in ((if last then u ∷ rest.0 else rest.0), rest.1)

  -- None where the node stands alone.
  unfoldable pub clear_node_users_session :
      Text → NodeState S → Option (List NodeUser) × NodeState S
  unfolding list_node_user_devices remove_users_data delete_node_connections
  clear_node_users_session endpoint n =
      let (last, m) = remove_users_data (list_node_user_devices r endpoint n.redis) n in
      if cfg.is_stand_alone_node
      then (none, n)
      else (some last, record m { redis = delete_node_connections r endpoint m.redis })

  -- The properties of a null session are a TypeError.
  unfoldable pub set_session_inactive_state : ℕ → Bool → Action (NodeState S) Bool
  unfolding update_params add_user_extra_params remove_user_extra_params
  set_session_inactive_state socket inactive n = elim (get_session socket n.active) [
    | none ↦ (err type_error, n)
    | some session ↦
        let device = printed_device socket session.user_id n.active in
        let active = update_params socket (λ p. record p { inactive = inactive }) n.active in
        let stored =
          if inactive
          then add_user_extra_params r session.user_id device
              ((session_inactive_state_key, true_text) ∷ []) n.redis
          else remove_user_extra_params r session.user_id device (session_inactive_state_key ∷ [])
              n.redis in
        (
          ok inactive,
          record { active = active; redis = if cfg.is_stand_alone_node then n.redis else stored },
        )
  ]

  -- The loop over the devices of a user: each leaves the node that it is on. The parameters of all
  -- devices are read before the loop; what it removes is none of them.
  unfoldable pub leave_nodes : Text → Text → List Text → S → S
  unfolding retrieve_user_extra_params remove_user_device_from_node
  leave_nodes org uid [] s = s
  leave_nodes org uid (d ∷ ds) s =
      let endpoint = retrieve_user_extra_params r uid d s session_node_key in
      let left = remove_user_device_from_node r (text_or endpoint []) org uid d s in
      leave_nodes org uid ds (if is_given endpoint then left else s)

  unfoldable pub remove_all_user_sessions : ℕ → NodeState S → NodeState S
  unfolding list_user_device leave_nodes delete_user_data
  remove_all_user_sessions socket n = elim (get_session socket n.active) [
    | none ↦ n
    | some session ↦
        let uid = session.user_id in
        let org = session.organization_id in
        let a = put_devices uid none n.active in
        let m : NodeState S = record n {
          active = record a { sessions = map_delete socket a.sessions };
        } in
        let (ids, m1) = list_user_device r cfg org uid false m in
        if cfg.is_stand_alone_node
        then m
        else delete_user_data r cfg org uid (record m1 { redis = leave_nodes org uid ids m1.redis })
  ]

  -- `removeUserSession` once the user and the device are known: whether no connection is left.
  unfoldable pub remove_known_session : ℕ → Text → Option Text → NodeState S → Bool × NodeState S
  unfolding remove_connections remove_all_user_device_data
  remove_known_session socket uid device n =
      let org = organization_of (get_session socket n.active) in
      let (last, active) = remove_connections socket uid device n.active in
      let m : NodeState S = record n { active = active } in
      if not (is_given device) || cfg.is_stand_alone_node
      then (last, m)
      else remove_all_user_device_data r cfg org uid (text_or device []) m

  -- A user or a device that is not given is that of the socket. A null user is the key "null".
  unfoldable pub remove_user_session :
      ℕ → Option Text → Option Text → NodeState S → Bool × NodeState S
  unfolding remove_known_session
  remove_user_session socket user device n =
      let uid = text_or (or_else user (get_session_user_id socket n.active)) null_text in
      remove_known_session socket uid (or_else device (get_device_id socket uid n.active)) n

  -- Lines that the operations user connect and user auth share: the connection, what is stored of it,
  -- and the removal of the device that the socket had.
  unfoldable pub connect_device : ℕ → Text → Text → Text → NodeState S → NodeState S
  connect_device socket org uid device n =
      let (replaced, active) = add_user_device_connection socket org uid device n.active in
      let m = store_user_node_data socket org uid device (record n { active = active }) in
      elim replaced.same_socket_connection [
        | none ↦ m
        | some c ↦ (remove_all_user_device_data r cfg org uid c.device_id m).1
      ]
