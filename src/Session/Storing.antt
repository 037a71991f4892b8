-- ===== src/Session/Storing.antt =====
-- What storing and removing a device's data do to the user's devices in Redis, in a cluster.
use sama_server.Prelude.{
  ℕ, ◌≡◌, refl, ap, ◌∙◌, true, false, not, ◌&&◌, ◌||◌, List, [], ◌∷◌, Option, some, if◌then◌else◌,
  is_empty, arith, Bool-cases, inl, inr,
}
use sama_server.Prelude.Text.{Text, same_text, same_text_refl, includes_text}
use sama_server.Redis.{Redis, assigned}
use sama_server.Session.{get_user_devices, update_params}
use sama_server.Session.Keys.{
  nodes_set_cache_key, users_set_cache_key, users_hash_cache_key, user_connection_member,
  keys_differ, hash_keys,
}
use sama_server.Session.Node.{
  NodeConfig, NodeState, session_node_key, text_or, add_user_device_to_node,
  retrieve_user_extra_params, add_user_device, add_user_extra_params,
  add_user_device_data_transaction, is_actual, list_user_device, remove_all_user_device_data,
  remove_all_user_device_data_transaction,
}
use sama_server.Session.Lifecycle.{store_user_node_data}
use sama_server.Session.Presence.{
  cleared, is_actual-cleared, removed_members, list_user_device-actual,
}

module _ {S : Type 0} (r : Redis S) (cfg : NodeConfig)
    (cluster : cfg.is_stand_alone_node ≡ false) where
  removing :
      (org uid device : Text) (n : NodeState S)
      → remove_all_user_device_data r cfg org uid device n ≡ (
        is_empty
            (list_user_device r cfg org uid true (
              cleared r cfg
                (retrieve_user_extra_params r uid device
                  (r.s_rem (users_set_cache_key org uid) device n.redis)
                  session_node_key)
                org
                uid
                device
                n)).0,
        (list_user_device r cfg org uid true (
            cleared r cfg
              (retrieve_user_extra_params r uid device
                (r.s_rem (users_set_cache_key org uid) device n.redis)
                session_node_key)
              org
              uid
              device
              n)).1,
      )
  unfolding remove_all_user_device_data remove_all_user_device_data_transaction
  removing org uid device n = refl

  -- In a cluster, removing all data of a device leaves in the user's set the other devices that are
  -- actual, and the connections of this node as they are.
  pub remove_all_user_device_data_lem :
      (org uid device x : Text) (n : NodeState S)
      → (includes_text x (
            r.s_members
              (users_set_cache_key org uid)
              (remove_all_user_device_data r cfg org uid device n).1.redis)
          ≡ (not (same_text x device)
              && (includes_text x (r.s_members (users_set_cache_key org uid) n.redis)
                  && is_actual r cfg uid x n)))
        × ((remove_all_user_device_data r cfg org uid device n).1.active ≡ n.active)
  remove_all_user_device_data_lem org uid device x n =
      let endpoint =
        retrieve_user_extra_params r uid device
          (r.s_rem (users_set_cache_key org uid) device n.redis) session_node_key in
      let m = cleared r cfg endpoint org uid device n in
      let listed = list_user_device-actual r cfg org uid m cluster in
      rw (removing org uid device n) (
        (rw (listed.1.0 x, removed_members r cfg endpoint org uid device x n.redis)
            (elim (Bool-cases (same_text x device)) [
              | inl e ↦ rw e refl
              | inr e ↦ rw (e, is_actual-cleared r cfg endpoint org uid device x n e) refl
            ])),
        listed.1.1,
      )

  added_members :
      (endpoint : Option Text) (org uid device x : Text) (pairs : List (Text × Text)) (s : S)
      → includes_text x (
          r.s_members
            (users_set_cache_key org uid)
            (add_user_device_data_transaction r cfg endpoint org uid device pairs s))
        ≡ (same_text x device || includes_text x (r.s_members (users_set_cache_key org uid) s))
  unfolding add_user_device_data_transaction add_user_device add_user_extra_params
      add_user_device_to_node
  added_members endpoint org uid device x pairs s =
      let key = users_set_cache_key org uid in
      let host = text_or endpoint cfg.cluster_endpoint in
      let s1 = r.s_add key device s in
      rw
        (
          r.s_members-s_add key x (nodes_set_cache_key host) (user_connection_member org uid device)
              (r.h_set (users_hash_cache_key uid device) pairs s1),
          (keys_differ org uid device host).0,
          r.s_members-h_set key (users_hash_cache_key uid device) pairs s1,
          r.s_members-s_add key x key device s,
          same_text_refl key,
        )
        refl

  added_hash :
      (endpoint : Option Text) (org uid device d f : Text) (pairs : List (Text × Text)) (s : S)
      → r.h_get_all
          (users_hash_cache_key uid d)
          (add_user_device_data_transaction r cfg endpoint org uid device pairs s)
          f
        ≡ (if same_text d device
            then assigned f pairs (r.h_get_all (users_hash_cache_key uid d) s f)
            else r.h_get_all (users_hash_cache_key uid d) s f)
  unfolding add_user_device_data_transaction add_user_device add_user_extra_params
      add_user_device_to_node
  added_hash endpoint org uid device d f pairs s =
      let key = users_hash_cache_key uid d in
      let s1 = r.s_add (users_set_cache_key org uid) device s in
      rw
        (
          r.h_get_all-s_add key f (nodes_set_cache_key (text_or endpoint cfg.cluster_endpoint))
              (user_connection_member org uid device)
              (r.h_set (users_hash_cache_key uid device) pairs s1),
          r.h_get_all-h_set key f (users_hash_cache_key uid device) pairs s1,
          hash_keys uid d device,
          r.h_get_all-s_add key f (users_set_cache_key org uid) device s,
        )
        refl

  -- the state before the device's data are added
  abbrev stored_params : ℕ → NodeState S → NodeState S
  stored_params socket n = record n {
    active =
        update_params socket (λ p. record p { node_endpoint = some cfg.cluster_endpoint }) n.active;
  }

  is_actual-stored_params :
      (socket : ℕ) (uid d : Text) (n : NodeState S)
      → is_actual r cfg uid d (stored_params socket n) ≡ is_actual r cfg uid d n
  unfolding is_actual update_params
  is_actual-stored_params socket uid d n = refl

  listed :
      (org uid : Text) (n : NodeState S)
      → list_user_device r cfg org uid false n
        ≡ (r.s_members (users_set_cache_key org uid) n.redis, n)
  unfolding list_user_device
  listed org uid n = rw cluster refl

  stored_endpoint :
      (org uid device : Text) (s : S)
      → retrieve_user_extra_params r uid device
          (add_user_device_data_transaction r cfg
            (some cfg.cluster_endpoint)
            org
            uid
            device
            ((session_node_key, cfg.cluster_endpoint) ∷ [])
            s)
          session_node_key
        ≡ some cfg.cluster_endpoint
  unfolding retrieve_user_extra_params
  stored_endpoint org uid device s =
      added_hash (some cfg.cluster_endpoint) org uid device device session_node_key
        ((session_node_key, cfg.cluster_endpoint) ∷ []) s
      ∙ (rw (same_text_refl device) refl)

  added : Text → Text → Text → NodeState S → NodeState S
  added org uid device m = record m {
    redis =
        add_user_device_data_transaction r cfg (some cfg.cluster_endpoint) org uid device
          ((session_node_key, cfg.cluster_endpoint) ∷ []) m.redis;
  }

  storing :
      (socket : ℕ) (org uid device : Text) (n : NodeState S)
      → store_user_node_data r cfg socket org uid device n
        ≡ added org uid device (
            if includes_text device (r.s_members (users_set_cache_key org uid) n.redis)
            then (remove_all_user_device_data r cfg org uid device (stored_params socket n)).1
            else stored_params socket n)
  unfolding store_user_node_data added
  storing socket org uid device n = simp (cluster, listed org uid (stored_params socket n)) refl

  -- In a cluster, storing a device's data puts the device in the user's set and this node's endpoint in
  -- its parameters; the other devices of the set stay, but where the device was in it already, only
  -- those that are actual.
  pub store_user_node_data_lem :
      (socket : ℕ) (org uid device x : Text) (n : NodeState S)
      → (includes_text x (
            r.s_members
              (users_set_cache_key org uid)
              (store_user_node_data r cfg socket org uid device n).redis)
          ≡ (same_text x device
              || (includes_text x (r.s_members (users_set_cache_key org uid) n.redis)
                  && (not (includes_text device (r.s_members (users_set_cache_key org uid) n.redis))
                      || is_actual r cfg uid x n))))
        × ((retrieve_user_extra_params r uid device
                (store_user_node_data r cfg socket org uid device n).redis
                session_node_key
              ≡ some cfg.cluster_endpoint)
            × ((v : Text)
                → get_user_devices v (store_user_node_data r cfg socket org uid device n).active
                  ≡ get_user_devices v n.active))
  unfolding added update_params
  store_user_node_data_lem socket org uid device x n =
      let pairs : List (Text × Text) = (session_node_key, cfg.cluster_endpoint) ∷ [] in
      let m = stored_params socket n in
      elim (Bool-cases (includes_text device (r.s_members (users_set_cache_key org uid) n.redis))) [
        | inl e ↦
            let gone = remove_all_user_device_data r cfg org uid device m in
            let removed = remove_all_user_device_data_lem org uid device x m in
            rw (storing socket org uid device n, e)
              (
                (rw
                    (
                      added_members (some cfg.cluster_endpoint) org uid device x pairs gone.1.redis,
                      removed.0,
                      is_actual-stored_params socket uid x n,
                    )
                    (ground arith)),
                (
                  stored_endpoint org uid device gone.1.redis,
                  λ v. ap (λ a. get_user_devices v a) removed.1,
                ),
              )
        | inr e ↦
            rw (storing socket org uid device n, e)
              (
                (rw (added_members (some cfg.cluster_endpoint) org uid device x pairs m.redis)
                    (ground arith)),
                (stored_endpoint org uid device m.redis, λ v. refl),
              )
      ]
