-- ===== src/Session/Node.antt =====
-- The part of app/providers/services/session/index.js that works on Redis, one function for each
-- method: the devices of a user on all nodes of the cluster, and the users' devices of a node.
use sama_server.Prelude.{
  Bool, true, false, not, ◌&&◌, ◌||◌, List, [], ◌∷◌, map, Option, none, some, if◌then◌else◌,
  is_empty, any,
}
use sama_server.Prelude.Text.{Text, same_text}
use sama_server.Redis.{Redis}
use sama_server.Session.{ActiveSessions, get_user_devices, has_device, list_user_device_local}
use sama_server.Session.Keys.{
  NodeUser, nodes_set_cache_key, users_set_cache_key, users_hash_cache_key, user_connection_member,
  parse_member,
}

-- `app.isStandAloneNode` and `ws.cluster.endpoint`
pub record NodeConfig : Type 0 where
  pub is_stand_alone_node : Bool
  pub cluster_endpoint : Text

pub record NodeState (S : Type 0) : Type 0 where
  pub active : ActiveSessions
  pub redis : S

-- SESSION_NODE_KEY, "NODE_ENDPOINT"
abbrev pub session_node_key : Text
session_node_key = 78 ∷ 79 ∷ 68 ∷ 69 ∷ 95 ∷ 69 ∷ 78 ∷ 68 ∷ 80 ∷ 79 ∷ 73 ∷ 78 ∷ 84 ∷ []

-- The truth value of a text that may be undefined.
abbrev pub is_given : Option Text → Bool
is_given none = false
is_given (some t) = not (is_empty t)

abbrev pub is_text : Text → Option Text → Bool
is_text t none = false
is_text t (some u) = same_text u t

-- `text ?? other`
abbrev pub text_or : Option Text → Text → Text
text_or none other = other
text_or (some t) other = t

module _ {S : Type 0} (r : Redis S) where
  unfoldable pub add_user_device_to_node : Text → Text → Text → Text → S → S
  add_user_device_to_node endpoint org uid device =
      r.s_add (nodes_set_cache_key endpoint) (user_connection_member org uid device)

  unfoldable pub remove_user_device_from_node : Text → Text → Text → Text → S → S
  remove_user_device_from_node endpoint org uid device =
      r.s_rem (nodes_set_cache_key endpoint) (user_connection_member org uid device)

  unfoldable pub list_node_user_devices : Text → S → List NodeUser
  list_node_user_devices endpoint s =
      map parse_member (r.s_members (nodes_set_cache_key endpoint) s)

  unfoldable pub delete_node_connections : Text → S → S
  delete_node_connections endpoint = r.del (nodes_set_cache_key endpoint)

  unfoldable pub add_user_device : Text → Text → Text → S → S
  add_user_device org uid device = r.s_add (users_set_cache_key org uid) device

  unfoldable pub delete_user_devices : Text → Text → S → S
  delete_user_devices org uid = r.del (users_set_cache_key org uid)

  unfoldable pub add_user_extra_params : Text → Text → List (Text × Text) → S → S
  add_user_extra_params uid device pairs = r.h_set (users_hash_cache_key uid device) pairs

  unfoldable pub retrieve_user_extra_params : Text → Text → S → Text → Option Text
  retrieve_user_extra_params uid device s = r.h_get_all (users_hash_cache_key uid device) s

  unfoldable pub remove_user_extra_params : Text → Text → List Text → S → S
  remove_user_extra_params uid device fields = r.h_del (users_hash_cache_key uid device) fields

  unfoldable pub delete_user_extra_params : Text → Text → S → S
  delete_user_extra_params uid device = r.del (users_hash_cache_key uid device)

  module _ (cfg : NodeConfig) where
    -- The commands of a transaction are made in order.
    unfoldable pub remove_all_user_device_data_transaction :
        Option Text → Text → Text → Text → S → S
    unfolding delete_user_extra_params remove_user_device_from_node
    remove_all_user_device_data_transaction endpoint org uid device s =
        remove_user_device_from_node (text_or endpoint cfg.cluster_endpoint) org uid device
          (delete_user_extra_params uid device (r.s_rem (users_set_cache_key org uid) device s))

    unfoldable pub add_user_device_data_transaction :
        Option Text → Text → Text → Text → List (Text × Text) → S → S
    unfolding add_user_device add_user_extra_params add_user_device_to_node
    add_user_device_data_transaction endpoint org uid device pairs s =
        add_user_device_to_node (text_or endpoint cfg.cluster_endpoint) org uid device
          (add_user_extra_params uid device pairs (add_user_device org uid device s))

    -- Whether a device of the cluster is one still: it has an endpoint, and a connection where the
    -- endpoint is this node's.
    unfoldable pub is_actual : Text → Text → NodeState S → Bool
    unfolding retrieve_user_extra_params
    is_actual uid device n =
        let endpoint = retrieve_user_extra_params uid device n.redis session_node_key in
        is_given endpoint
        && (not (is_text cfg.cluster_endpoint endpoint)
            || any (has_device device) (get_user_devices uid n.active))

    -- The loop of `filterActualDeviceIds`. The members of a set are distinct.
    unfoldable pub filter_actual_device_ids :
        Text → Text → List Text → NodeState S → List Text × NodeState S
    unfolding is_actual remove_all_user_device_data_transaction
    filter_actual_device_ids org uid [] n = ([], n)
    filter_actual_device_ids org uid (d ∷ ds) n =
        let removed : NodeState S = record n {
          redis =
              remove_all_user_device_data_transaction (some cfg.cluster_endpoint) org uid d n.redis;
        } in
        let actual = is_actual uid d n in
        let rest = filter_actual_device_ids org uid ds (if actual then n else removed) in
        ((if actual then d ∷ rest.0 else rest.0), rest.1)

    -- The flag is `filterActualDevices`.
    unfoldable pub list_user_device : Text → Text → Bool → NodeState S → List Text × NodeState S
    unfolding filter_actual_device_ids list_user_device_local
    list_user_device org uid filter_actual n =
        let ids = r.s_members (users_set_cache_key org uid) n.redis in
        if cfg.is_stand_alone_node
        then (list_user_device_local uid n.active, n)
        else if filter_actual
        then filter_actual_device_ids org uid ids n
        else (ids, n)

    -- `removeUserDevice` with `returnIsLast`: whether no device is left.
    unfoldable pub remove_last_user_device : Text → Text → Text → NodeState S → Bool × NodeState S
    unfolding list_user_device
    remove_last_user_device org uid device n =
        let m : NodeState S = record n {
          redis = r.s_rem (users_set_cache_key org uid) device n.redis;
        } in
        let left = list_user_device org uid false m in (is_empty left.0, left.1)

    unfoldable pub remove_user_data : Text → Text → Text → NodeState S → Bool × NodeState S
    unfolding remove_last_user_device delete_user_extra_params
    remove_user_data org uid device n =
        let (last, m) = remove_last_user_device org uid device n in
        (last, record m { redis = delete_user_extra_params uid device m.redis })

    unfoldable pub delete_all_extra_params : Text → List Text → S → S
    unfolding delete_user_extra_params
    delete_all_extra_params uid [] s = s
    delete_all_extra_params uid (d ∷ ds) s =
        delete_all_extra_params uid ds (delete_user_extra_params uid d s)

    unfoldable pub delete_user_data : Text → Text → NodeState S → NodeState S
    unfolding list_user_device delete_all_extra_params delete_user_devices
    delete_user_data org uid n =
        let (ids, m) = list_user_device org uid false n in
        record m { redis = delete_user_devices org uid (delete_all_extra_params uid ids m.redis) }

    -- Whether no device that is one still is left.
    unfoldable pub remove_all_user_device_data :
        Text → Text → Text → NodeState S → Bool × NodeState S
    unfolding retrieve_user_extra_params delete_user_extra_params remove_user_device_from_node
        list_user_device
    remove_all_user_device_data org uid device n =
        let removed = r.s_rem (users_set_cache_key org uid) device n.redis in
        let extra = retrieve_user_extra_params uid device removed in
        let endpoint = text_or (extra session_node_key) cfg.cluster_endpoint in
        let m : NodeState S = record n {
          redis =
              remove_user_device_from_node endpoint org uid device
                (delete_user_extra_params uid device removed);
        } in
        let left = list_user_device org uid true m in (is_empty left.0, left.1)
