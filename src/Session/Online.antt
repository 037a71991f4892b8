-- ===== src/Session/Online.antt =====
-- The lists of users who are online, of this process and of the cluster.
use mathlib.Core.Bool.{false≢true}
use sama_server.Prelude.{
  ◌||◌, ℕ, ◌==◌, ◌≡◌, ◌≤◌, refl, sym, ap, ◌∙◌, subst, Bool, true, not, ◌&&◌, List, [], ◌∷◌, ◌++◌,
  map, if◌then◌else◌, filter, is_empty, length, any, arith, Bool-cases, inl, inr,
}
use sama_server.Prelude.Text.{Text, same_text, same_text_iff, includes_text}
use sama_server.Redis.{Redis}
use sama_server.Session.{
  Connection, SocketSession, ActiveSessions, get_user_devices, list_user_device_local,
  is_online_session, is_device_id, http_device_id, distinct, retrieve_local_active_session_user_ids,
}
use sama_server.Session.Keys.{
  colon, prepend, split_colons, users_set_cache_key, user_devices, IsPlain, split_plain,
  undefined_text,
}
use sama_server.Session.Node.{NodeConfig, NodeState, list_user_device}

-- `at(-1)`
abbrev pub last_part : List Text → Text
last_part [] = undefined_text
last_part (w ∷ []) = w
last_part (w ∷ v ∷ ws) = last_part (v ∷ ws)

unfoldable pub user_of_key : Text → Text
unfolding split_colons
user_of_key key = last_part (split_colons key)

last_prepend : (c : ℕ) (ws : List Text) → 2 ≤ length ws → last_part (prepend c ws) ≡ last_part ws
last_prepend c [] h = absurd (omega arith)
last_prepend c (w ∷ []) h = absurd (omega arith)
last_prepend c (w ∷ v ∷ ws) h = refl

last_rest : (w : Text) (ws : List Text) → 2 ≤ length ws → last_part (w ∷ ws) ≡ last_part ws
last_rest w [] h = absurd (omega arith)
last_rest w (v ∷ ws) h = refl

length-prepend : (c : ℕ) (ws : List Text) → 2 ≤ length ws → 2 ≤ length (prepend c ws)
length-prepend c [] h = absurd (omega arith)
length-prepend c (w ∷ ws) h = h

two_parts : (s t : Text) → IsPlain t → 2 ≤ length (split_colons (s ++ colon ∷ t))
unfolding split_colons
two_parts [] t plain = rw (split_plain t plain) omega arith
two_parts (c ∷ s) t plain = elim (Bool-cases (c == colon)) [
  | inl e ↦ rw e (omega (arith, two_parts s t plain))
  | inr e ↦ rw e (length-prepend c (split_colons (s ++ colon ∷ t)) (two_parts s t plain))
]

last_split : (s t : Text) → IsPlain t → last_part (split_colons (s ++ colon ∷ t)) ≡ t
unfolding split_colons
last_split [] t plain = rw (split_plain t plain) refl
last_split (c ∷ s) t plain =
    let ws = split_colons (s ++ colon ∷ t) in
    let two = two_parts s t plain in
    elim (Bool-cases (c == colon)) [
      | inl e ↦ rw e (last_rest [] ws two ∙ last_split s t plain)
      | inr e ↦ rw e (last_prepend c ws two ∙ last_split s t plain)
    ]

-- The user of a key of a user's devices is read from it, when the id has no ":" in it.
pub user_of_key-users_set_cache_key :
    (org uid : Text) → IsPlain uid → user_of_key (users_set_cache_key org uid) ≡ uid
unfolding user_of_key users_set_cache_key
user_of_key-users_set_cache_key org uid plain =
    last_rest user_devices (split_colons (org ++ colon ∷ uid)) (two_parts org uid plain)
    ∙ last_split org uid plain

module _ {S : Type 0} (r : Redis S) (cfg : NodeConfig) where
  -- The loop over the users: `online` is the Set.
  unfoldable pub keep_online : Text → List Text → List Text → NodeState S → List Text × NodeState S
  unfolding list_user_device
  keep_online org [] online n = (online, n)
  keep_online org (u ∷ us) online n =
      let (ids, m) = list_user_device r cfg org u true n in
      keep_online org us (if is_empty ids then filter (λ v. not (same_text v u)) online else online)
        m

  -- The keys are what the scan found.
  unfoldable pub online_users_of_keys : Text → List Text → NodeState S → List Text × NodeState S
  unfolding keep_online user_of_key
  online_users_of_keys org keys n =
      let ids = map user_of_key keys in keep_online org ids (distinct same_text ids) n

-- Whether a filter that keeps what passes the test changes that something passes it.
any-filter :
    (p q : Text → Bool) (xs : List Text)
    → ((x : Text) → p x ≡ true → q x ≡ true)
    → any p (filter q xs) ≡ any p xs
any-filter p q [] keeps = refl
any-filter p q (x ∷ xs) keeps = elim (Bool-cases (q x)) [
  | inl e ↦ rw e (ap (λ b. p x || b) (any-filter p q xs keeps))
  | inr e ↦ elim (Bool-cases (p x)) [
    | inl there ↦ absurd (false≢true (sym e ∙ keeps x there))
    | inr other ↦ rw (e, other) (any-filter p q xs keeps)
  ]
]

includes_text-distinct :
    (same : Text → Text → Bool) (u : Text) (xs : List Text)
    → ((x y : Text) → same x y ≡ true → x ≡ y)
    → includes_text u (distinct same xs) ≡ includes_text u xs
includes_text-distinct same u [] finer = refl
includes_text-distinct same u (x ∷ xs) finer = elim (Bool-cases (same_text x u)) [
  | inl e ↦ rw e refl
  | inr e ↦ rw e (
      any-filter (λ z. same_text z u) (λ y. not (same x y)) (distinct same xs)
        (λ y h. elim (Bool-cases (same x y)) [
          | inr other ↦ rw other refl
          | inl one ↦ absurd (false≢true (sym e ∙ ap (λ z. same_text z u) (finer x y one) ∙ h))
        ])
      ∙ includes_text-distinct same u xs finer)
]

is_empty-filter :
    (p : Text → Bool) (cs : List Connection)
    → is_empty (filter p (map (λ c. c.device_id) cs)) ≡ not (any (λ c. p c.device_id) cs)
is_empty-filter p [] = refl
is_empty-filter p (c ∷ cs) = elim (Bool-cases (p c.device_id)) [
  | inl e ↦ rw e refl
  | inr e ↦ rw e (is_empty-filter p cs)
]

-- Whether the user has a connection here other than those of HTTP requests.
abbrev pub is_connected : Text → ActiveSessions → Bool
is_connected u a = any (λ c. not (same_text c.device_id http_device_id)) (get_user_devices u a)

-- Whether the session is one of the user in the organization, and not one of an HTTP request.
abbrev pub is_session_of : Text → Text → ℕ × SocketSession → Bool
is_session_of org u (socket, s) =
    same_text s.user_id u
    && (same_text s.organization_id org
        && not (is_device_id http_device_id s.extra_params.device_id))

list_user_device_local_lem :
    (u : Text) (a : ActiveSessions) → is_empty (list_user_device_local u a) ≡ not (is_connected u a)
unfolding list_user_device_local
list_user_device_local_lem u a =
    is_empty-filter (λ d. not (same_text d http_device_id)) (get_user_devices u a)

and_parts : (o h e c : Bool) → (o && (h && (e && not (not c)))) ≡ ((o && h) && (e && c))
and_parts o h e c = ground arith

online_sessions :
    (org u : Text) (a : ActiveSessions) (ss : List (ℕ × SocketSession))
    → includes_text u (map (λ e. e.1.user_id) (filter (is_online_session org a) ss))
      ≡ (any (is_session_of org u) ss && (not (is_empty u) && is_connected u a))
online_sessions org u a [] = refl
online_sessions org u a ((k, s) ∷ ss) =
    let here = is_online_session org a (k, s) in
    let user = not (is_empty u) && is_connected u a in
    elim (Bool-cases (same_text s.user_id u)) [
      | inr other ↦ elim (Bool-cases here) [
        | inl e ↦ rw (e, other) (online_sessions org u a ss)
        | inr e ↦ rw (e, other) (online_sessions org u a ss)
      ]
      | inl same ↦
          let fits =
            same_text s.organization_id org
            && not (is_device_id http_device_id s.extra_params.device_id) in
          let e : here ≡ (fits && user) =
            subst
              (λ v.
                (same_text s.organization_id org
                  && (not (is_device_id http_device_id s.extra_params.device_id)
                      && (not (is_empty v) && not (is_empty (list_user_device_local v a)))))
                ≡ (fits && user))
              (sym ((same_text_iff s.user_id u).0 same))
              (rw (list_user_device_local_lem u a) (
                and_parts (same_text s.organization_id org)
                  (not (is_device_id http_device_id s.extra_params.device_id)) (not (is_empty u))
                  (is_connected u a))) in
          elim (Bool-cases fits) [
            | inr off ↦ rw (e, off, same) (online_sessions org u a ss)
            | inl on ↦ elim (Bool-cases user) [
              | inl there ↦ rw (e, on, there, same) refl
              | inr gone ↦
                  rw (e, on, gone, same) (online_sessions org u a ss ∙ rw gone (ground arith))
            ]
          ]
    ]

module _ (sort : List Text → List Text) (same : Text → Text → Bool) where
  -- A user is listed as online exactly when a session of the user in the organization is not one of an
  -- HTTP request, the id is not empty, and a connection of the user here is not one of HTTP; when
  -- sorting keeps the elements of a list, and the Set takes only equal ids for one.
  pub retrieve_local_active_session_user_ids-online :
      (org u : Text) (a : ActiveSessions)
      → ((p : Text → Bool) (xs : List Text) → any p (sort xs) ≡ any p xs)
      → ((x y : Text) → same x y ≡ true → x ≡ y)
      → includes_text u (retrieve_local_active_session_user_ids sort same org a)
        ≡ (any (is_session_of org u) a.sessions && (not (is_empty u) && is_connected u a))
  unfolding retrieve_local_active_session_user_ids
  retrieve_local_active_session_user_ids-online org u a keeps finer =
      let users = map (λ e. e.1.user_id) (filter (is_online_session org a) a.sessions) in
      includes_text-distinct same u (sort users) finer
      ∙ (keeps (λ x. same_text x u) users ∙ online_sessions org u a a.sessions)
