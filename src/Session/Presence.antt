-- ===== src/Session/Presence.antt =====
-- What the session service stores of a user's devices in Redis, on the nodes of a cluster.
use sama_server.Prelude.{
  ◌≡◌, ◌≤◌, refl, sym, ◌∙◌, subst, Bool, true, false, not, ◌&&◌, ◌||◌, List, [], ◌∷◌, Option, none,
  some, if◌then◌else◌, filter, any-count, count, arith, Bool-cases, inl, inr,
}
use sama_server.Prelude.Text.{Text, same_text, same_text_iff, same_text_refl, includes_text}
use sama_server.Redis.{Redis}
use sama_server.Session.Keys.{
  nodes_set_cache_key, users_set_cache_key, users_hash_cache_key, user_connection_member,
  keys_differ, hash_keys,
}
use sama_server.Session.Node.{
  NodeConfig, NodeState, session_node_key, text_or, remove_user_device_from_node,
  retrieve_user_extra_params, delete_user_extra_params, remove_all_user_device_data_transaction,
  is_actual, filter_actual_device_ids, list_user_device,
}

filter_ext :
    (f g : Text → Bool) (ds : List Text)
    → ((e : Text) → includes_text e ds ≡ true → f e ≡ g e)
    → filter f ds ≡ filter g ds
filter_ext f g [] h = refl
filter_ext f g (d ∷ ds) h =
    rw (h d (rw (same_text_refl d) refl), filter_ext f g ds (λ e m. h e (ground (arith, m)))) refl

-- no text twice
abbrev pub IsUnique : List Text → Type 0
IsUnique ds = (x : Text) → count (λ y. same_text y x) ds ≤ 1

IsUnique-tail : (d : Text) (ds : List Text) → IsUnique (d ∷ ds) → IsUnique ds
IsUnique-tail d ds u x = omega (arith, u x)

IsUnique-head :
    (d e : Text) (ds : List Text)
    → IsUnique (d ∷ ds)
    → includes_text e ds ≡ true
    → same_text e d ≡ false
IsUnique-head d e ds u m = elim (Bool-cases (same_text e d)) [
  | inr h ↦ h
  | inl h ↦
      let there : includes_text d ds ≡ true =
        subst (λ x. includes_text x ds ≡ true) ((same_text_iff e d).0 h) m in
      absurd (ground (arith, u d, same_text_refl d, any-count (λ y. same_text y d) ds, there))
]

module _ {S : Type 0} (r : Redis S) (cfg : NodeConfig) where
  pub removed_members :
      (endpoint : Option Text) (org uid d x : Text) (s : S)
      → includes_text x (
          r.s_members
            (users_set_cache_key org uid)
            (remove_all_user_device_data_transaction r cfg endpoint org uid d s))
        ≡ (not (same_text x d) && includes_text x (r.s_members (users_set_cache_key org uid) s))
  unfolding remove_all_user_device_data_transaction remove_user_device_from_node
      delete_user_extra_params
  removed_members endpoint org uid d x s =
      let key = users_set_cache_key org uid in
      let host = text_or endpoint cfg.cluster_endpoint in
      let gone = r.s_rem key d s in
      let differ = keys_differ org uid d host in
      rw
        (
          r.s_members-s_rem key x (nodes_set_cache_key host) (user_connection_member org uid d)
              (r.del (users_hash_cache_key uid d) gone),
          differ.0,
          r.s_members-del key x (users_hash_cache_key uid d) gone,
          differ.1.1.0,
          r.s_members-s_rem key x key d s,
          same_text_refl key,
        )
        refl

  pub removed_hash :
      (endpoint : Option Text) (org uid d e f : Text) (s : S)
      → r.h_get_all
          (users_hash_cache_key uid e)
          (remove_all_user_device_data_transaction r cfg endpoint org uid d s)
          f
        ≡ (if same_text e d then none else r.h_get_all (users_hash_cache_key uid e) s f)
  unfolding remove_all_user_device_data_transaction remove_user_device_from_node
      delete_user_extra_params
  removed_hash endpoint org uid d e f s =
      let key = users_hash_cache_key uid e in
      let gone = r.s_rem (users_set_cache_key org uid) d s in
      rw
        (
          r.h_get_all-s_rem key f (nodes_set_cache_key (text_or endpoint cfg.cluster_endpoint))
              (user_connection_member org uid d) (r.del (users_hash_cache_key uid d) gone),
          r.h_get_all-del key f (users_hash_cache_key uid d) gone,
          hash_keys uid e d,
          r.h_get_all-s_rem key f (users_set_cache_key org uid) d s,
        )
        refl

  -- the state after the data of a device are removed
  abbrev pub cleared : Option Text → Text → Text → Text → NodeState S → NodeState S
  cleared endpoint org uid d n = record n {
    redis = remove_all_user_device_data_transaction r cfg endpoint org uid d n.redis;
  }

  pub is_actual-cleared :
      (endpoint : Option Text) (org uid d e : Text) (n : NodeState S)
      → same_text e d ≡ false
      → is_actual r cfg uid e (cleared endpoint org uid d n) ≡ is_actual r cfg uid e n
  unfolding is_actual retrieve_user_extra_params
  is_actual-cleared endpoint org uid d e n h =
      let same : r.h_get_all (users_hash_cache_key uid e) (cleared endpoint org uid d n).redis
            session_node_key
          ≡ r.h_get_all (users_hash_cache_key uid e) n.redis session_node_key =
        removed_hash endpoint org uid d e session_node_key n.redis ∙ (rw h refl) in
      rw same refl

  filtered :
      (org uid : Text) (ds : List Text) (n : NodeState S)
      → IsUnique ds
      → (filter_actual_device_ids r cfg org uid ds n).0 ≡ filter (λ d. is_actual r cfg uid d n) ds
  unfolding filter_actual_device_ids
  filtered org uid [] n u = refl
  filtered org uid (d ∷ ds) n u = elim (Bool-cases (is_actual r cfg uid d n)) [
    | inl e ↦ rw (e, filtered org uid ds n (IsUnique-tail d ds u)) refl
    | inr e ↦
        rw
          (
            e,
            filtered org uid ds (cleared (some cfg.cluster_endpoint) org uid d n)
                (IsUnique-tail d ds u),
          )
          (filter_ext (λ x. is_actual r cfg uid x (cleared (some cfg.cluster_endpoint) org uid d n))
            (λ x. is_actual r cfg uid x n) ds
            (λ x m.
              is_actual-cleared (some cfg.cluster_endpoint) org uid d x n
                (IsUnique-head d x ds u m)))
  ]

  filtered_members :
      (org uid x : Text) (ds : List Text) (n : NodeState S)
      → IsUnique ds
      → includes_text x (
          r.s_members
            (users_set_cache_key org uid)
            (filter_actual_device_ids r cfg org uid ds n).1.redis)
        ≡ (includes_text x (r.s_members (users_set_cache_key org uid) n.redis)
            && (not (includes_text x ds) || is_actual r cfg uid x n))
  unfolding filter_actual_device_ids
  filtered_members org uid x [] n u = ground arith
  filtered_members org uid x (d ∷ ds) n u =
      let rest = IsUnique-tail d ds u in
      let inc = includes_text x (r.s_members (users_set_cache_key org uid) n.redis) in
      elim (Bool-cases (is_actual r cfg uid d n)) [
        | inl e ↦
            rw (e, filtered_members org uid x ds n rest)
              (elim (Bool-cases (same_text d x)) [
                | inr differ ↦ rw differ refl
                | inl same ↦
                    let act : is_actual r cfg uid x n ≡ true =
                      subst (λ z. is_actual r cfg uid z n ≡ true) ((same_text_iff d x).0 same) e in
                    rw (same, act) (ground arith)
              ])
        | inr e ↦
            rw
              (
                e,
                filtered_members org uid x ds (cleared (some cfg.cluster_endpoint) org uid d n)
                    rest,
                removed_members (some cfg.cluster_endpoint) org uid d x n.redis,
              )
              (elim (Bool-cases (same_text x d)) [
                | inl same ↦
                    let act : is_actual r cfg uid x n ≡ false =
                      subst (λ z. is_actual r cfg uid z n ≡ false)
                        (sym ((same_text_iff x d).0 same)) e in
                    let back : same_text d x ≡ true =
                      subst (λ z. same_text d z ≡ true) (sym ((same_text_iff x d).0 same))
                        (same_text_refl d) in
                    rw (same, back, act) (ground arith)
                | inr differ ↦
                    let back : same_text d x ≡ false =
                      ground (arith, same_text_iff d x, same_text_iff x d, differ) in
                    rw
                      (
                        differ,
                        back,
                        is_actual-cleared (some cfg.cluster_endpoint) org uid d x n differ,
                      )
                      refl
              ])
      ]

  pub filtered_active :
      (org uid : Text) (ds : List Text) (n : NodeState S)
      → (filter_actual_device_ids r cfg org uid ds n).1.active ≡ n.active
  unfolding filter_actual_device_ids
  filtered_active org uid [] n = refl
  filtered_active org uid (d ∷ ds) n = elim (Bool-cases (is_actual r cfg uid d n)) [
    | inl e ↦ rw e (filtered_active org uid ds n)
    | inr e ↦ rw e (filtered_active org uid ds (cleared (some cfg.cluster_endpoint) org uid d n))
  ]

  -- On a node of a cluster, listing the actual devices of a user gives those of the user's set that
  -- have an endpoint and, if it is this node's, a connection here; it leaves just these in the set and
  -- the connections of this node as they are.
  pub list_user_device-actual :
      (org uid : Text) (n : NodeState S)
      → cfg.is_stand_alone_node ≡ false
      → ((list_user_device r cfg org uid true n).0
          ≡ filter
              (λ d. is_actual r cfg uid d n)
              (r.s_members (users_set_cache_key org uid) n.redis))
        × (((x : Text)
              → includes_text x (
                  r.s_members
                    (users_set_cache_key org uid)
                    (list_user_device r cfg org uid true n).1.redis)
                ≡ (includes_text x (r.s_members (users_set_cache_key org uid) n.redis)
                    && is_actual r cfg uid x n))
            × ((list_user_device r cfg org uid true n).1.active ≡ n.active))
  unfolding list_user_device
  list_user_device-actual org uid n cluster =
      let ids = r.s_members (users_set_cache_key org uid) n.redis in
      let unique : IsUnique ids = λ x. r.count-s_members (users_set_cache_key org uid) x n.redis in
      rw cluster (
        filtered org uid ids n unique,
        (
          (λ x. filtered_members org uid x ids n unique ∙ (ground arith)),
          filtered_active org uid ids n,
        ),
      )
