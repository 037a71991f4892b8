-- ===== src/Session/Connected.antt =====
-- What connecting and disconnecting a device do to the connections and sessions of this process.
use sama_server.Prelude.{
  ℕ, ◌+◌, ◌==◌, ◌≡◌, refl, ◌∙◌, Bool, false, not, ◌&&◌, ◌||◌, [], ◌∷◌, ◌++◌, some, if◌then◌else◌,
  count, count-append, arith, Bool-cases, inl, inr, ==_refl,
}
use sama_server.Prelude.Text.{Text, same_text, same_text_refl}
use sama_server.Session.{
  SocketSession, Connection, ActiveSessions, get_user_devices, get_session, get_device_id,
  map_delete, has_socket, has_device, other_connections, device_params, set_session,
  set_session_user_id, add_user_device_connection,
}
use sama_server.Session.Distinct.{
  IsConnected, map_get-map_delete, map_get-map_set, count-dropped, count-other_connections,
  replaced-IsDistinct, find-append_last,
}

abbrev pub new_connection : ℕ → Text → Text → Connection
new_connection socket org device = record {
  socket = socket;
  device_id = device;
  organization_id = org;
}

abbrev pub new_session : Text → Text → Text → SocketSession
new_session org uid device = record {
  organization_id = org;
  user_id = uid;
  extra_params = device_params device;
}

-- the sessions and devices after a device is connected
unfoldable pub connected : ℕ → Text → Text → Text → ActiveSessions → ActiveSessions
unfolding add_user_device_connection
connected socket org uid device a = (add_user_device_connection socket org uid device a).1

pub connected_devices :
    (socket : ℕ) (org uid device v : Text) (a : ActiveSessions)
    → get_user_devices v (connected socket org uid device a) ≡ (
        if same_text v uid
        then other_connections socket device false false (get_user_devices uid a)
          ++ new_connection socket org device ∷ []
        else get_user_devices v a)
unfolding add_user_device_connection set_session_user_id set_session connected
connected_devices socket org uid device v a = elim (Bool-cases (same_text v uid)) [
  | inl e ↦ rw e refl
  | inr e ↦ rw e refl
]

pub connected_session :
    (socket : ℕ) (org uid device : Text) (k : ℕ) (a : ActiveSessions)
    → get_session k (connected socket org uid device a)
      ≡ (if k == socket then some (new_session org uid device) else get_session k a)
unfolding add_user_device_connection set_session_user_id set_session connected
connected_session socket org uid device k a =
    rw
      (
        map_get-map_set socket k (new_session org uid device) (map_delete socket a.sessions),
        map_get-map_delete socket k a.sessions,
      )
      elim (Bool-cases (k == socket)) [ inl e ↦ rw e refl | inr e ↦ rw e refl ]

pub connected_count :
    (socket : ℕ) (org uid device : Text) (a : ActiveSessions) (p : Connection → Bool)
    → IsConnected a
    → count p (get_user_devices uid (connected socket org uid device a))
      ≡ count
          (λ c. p c && not (has_socket socket c || has_device device c))
          (get_user_devices uid a)
        + (if p (new_connection socket org device) then 1 else 0)
connected_count socket org uid device a p h =
    let others = other_connections socket device false false (get_user_devices uid a) in
    rw
      (
        connected_devices socket org uid device uid a,
        same_text_refl uid,
        count-append p others (new_connection socket org device ∷ []),
        count-other_connections socket device p (get_user_devices uid a) (h uid),
      )
      omega arith

pub connected_device :
    (socket : ℕ) (org uid device : Text) (a : ActiveSessions)
    → IsConnected a
    → get_device_id socket uid (connected socket org uid device a) ≡ some device
connected_device socket org uid device a h =
    let others = other_connections socket device false false (get_user_devices uid a) in
    let gone : count (has_socket socket) others ≡ 0 =
      count-other_connections socket device (has_socket socket) (get_user_devices uid a) (h uid)
      ∙ count-dropped (has_socket socket) (λ c. has_socket socket c || has_device device c)
          (get_user_devices uid a) (λ c m. ground (arith, m)) in
    rw
      (
        connected_devices socket org uid device uid a,
        same_text_refl uid,
        find-append_last (has_socket socket) others (new_connection socket org device) gone,
        ==_refl socket,
      )
      refl

-- Connecting a device where no user has a device or a socket twice: the socket is that device of the
-- user and has a session with it, of the connections of the user exactly those with the socket or the
-- device are replaced by the one new, and the connections of other users and the sessions of other
-- sockets stay as they are, those of another user on the same socket included.
pub add_user_device_connection_lem :
    (socket : ℕ) (org uid device : Text) (a : ActiveSessions)
    → IsConnected a
    → (get_device_id socket uid (connected socket org uid device a) ≡ some device)
      × (((k : ℕ)
            → get_session k (connected socket org uid device a)
              ≡ (if k == socket then some (new_session org uid device) else get_session k a))
          × (((p : Connection → Bool)
                → count p (get_user_devices uid (connected socket org uid device a))
                  ≡ count
                      (λ c. p c && not (has_socket socket c || has_device device c))
                      (get_user_devices uid a)
                    + (if p (new_connection socket org device) then 1 else 0))
              × ((v : Text)
                  → get_user_devices v (connected socket org uid device a) ≡ (
                      if same_text v uid
                      then get_user_devices uid (connected socket org uid device a)
                      else get_user_devices v a))))
add_user_device_connection_lem socket org uid device a h = (
  connected_device socket org uid device a h,
  (
    (λ k. connected_session socket org uid device k a),
    (
      (λ p. connected_count socket org uid device a p h),
      λ v. elim (Bool-cases (same_text v uid)) [
        | inl e ↦
            rw
              (
                connected_devices socket org uid device v a,
                connected_devices socket org uid device uid a,
                e,
                same_text_refl uid,
              )
              refl
        | inr e ↦ rw (connected_devices socket org uid device v a, e) refl
      ],
    ),
  ),
)

-- Connecting a device keeps the devices and the sockets of every user distinct.
pub add_user_device_connection-IsConnected :
    (socket : ℕ) (org uid device : Text) (a : ActiveSessions)
    → IsConnected a
    → IsConnected (add_user_device_connection socket org uid device a).1
unfolding add_user_device_connection set_session_user_id set_session
add_user_device_connection-IsConnected socket org uid device a h v =
    elim (Bool-cases (same_text v uid)) [
      | inl e ↦ rw e (replaced-IsDistinct socket org device (get_user_devices uid a) (h uid))
      | inr e ↦ rw e (h v)
    ]

pub connected-IsConnected :
    (socket : ℕ) (org uid device : Text) (a : ActiveSessions)
    → IsConnected a
    → IsConnected (connected socket org uid device a)
unfolding connected
connected-IsConnected = add_user_device_connection-IsConnected
