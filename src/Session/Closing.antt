-- ===== src/Session/Closing.antt =====
-- What closing a socket does to the connections and sessions of a node that stands alone.
use sama_server.Prelude.{
  ℕ, ◌==◌, ◌≡◌, ◌≤◌, refl, ap, ◌∙◌, Bool, true, false, not, ◌&&◌, ◌||◌, List, [], ◌∷◌, Option, none,
  some, if◌then◌else◌, find, filter, is_empty, count, arith, Bool-cases, inl, inr, ==_refl,
}
use sama_server.Prelude.Text.{Text, same_text, same_text_refl}
use sama_server.Redis.{Redis}
use sama_server.Session.{
  SocketSession, Connection, ActiveSessions, connections, get_user_devices, get_session,
  get_device_id, get_session_user_id, has_socket, has_device, device_of, is_device,
  some_connections, remove_connections, or_else,
}
use sama_server.Session.Node.{NodeConfig, NodeState}
use sama_server.Session.Lifecycle.{remove_known_session, remove_user_session}
use sama_server.Session.Distinct.{IsConnected, map_get-map_delete, count-find_none}
use sama_server.Session.Connected.{
  new_session, connected, connected-IsConnected, connected_count, connected_session,
  connected_device,
}

connections-some_connections : (cs : List Connection) → connections (some_connections cs) ≡ cs
connections-some_connections [] = refl
connections-some_connections (c ∷ cs) = refl

-- the sessions and devices after a user's device is removed with a socket
abbrev pub closed : ℕ → Text → Option Text → ActiveSessions → ActiveSessions
closed socket uid device a = (remove_connections socket uid device a).1

pub closed_devices :
    (socket : ℕ) (uid v : Text) (device : Option Text) (a : ActiveSessions)
    → get_user_devices v ((remove_connections socket uid device a).1) ≡ (
        if same_text v uid
        then filter (λ c. not (is_device device c)) (get_user_devices uid a)
        else get_user_devices v a)
unfolding remove_connections
closed_devices socket uid v device a = elim (Bool-cases (same_text v uid)) [
  | inl e ↦ rw e (
      connections-some_connections
        (filter (λ c. not (is_device device c)) (get_user_devices uid a)))
  | inr e ↦ rw e refl
]

pub closed_session :
    (socket k : ℕ) (uid : Text) (device : Option Text) (a : ActiveSessions)
    → get_session k ((remove_connections socket uid device a).1)
      ≡ (if k == socket then none else get_session k a)
unfolding remove_connections
closed_session socket k uid device a = map_get-map_delete socket k a.sessions

last_connection :
    (socket : ℕ) (uid : Text) (device : Option Text) (a : ActiveSessions)
    → (remove_connections socket uid device a).0
      ≡ is_empty (filter (λ c. not (is_device device c)) (get_user_devices uid a))
unfolding remove_connections
last_connection socket uid device a = refl

filter_le : (p q : Connection → Bool) (cs : List Connection) → count p (filter q cs) ≤ count p cs
filter_le p q [] = omega arith
filter_le p q (c ∷ cs) = ground (arith, filter_le p q cs)

filter_all : (cs : List Connection) → filter (λ c. not (is_device none c)) cs ≡ cs
filter_all [] = refl
filter_all (c ∷ cs) = ap (λ x. c ∷ x) (filter_all cs)

-- Removing a user's device keeps the devices and the sockets of every user distinct.
pub remove_connections-IsConnected :
    (socket : ℕ) (uid : Text) (device : Option Text) (a : ActiveSessions)
    → IsConnected a
    → IsConnected ((remove_connections socket uid device a).1)
remove_connections-IsConnected socket uid device a h v = elim (Bool-cases (same_text v uid)) [
  | inl e ↦
      rw (closed_devices socket uid v device a, e)
        (let keep : Connection → Bool = λ c. not (is_device device c) in
          let cs = get_user_devices uid a in
          (
            (λ d. let le = filter_le (has_device d) keep cs in omega (arith, le, (h uid).0 d)),
            λ k. let le = filter_le (has_socket k) keep cs in omega (arith, le, (h uid).1 k),
          ))
  | inr e ↦ rw (closed_devices socket uid v device a, e) (h v)
]

module _ {S : Type 0} (r : Redis S) (cfg : NodeConfig)
    (alone : cfg.is_stand_alone_node ≡ true) where
  pub known_alone :
      (socket : ℕ) (uid : Text) (device : Option Text) (n : NodeState S)
      → remove_known_session r cfg socket uid device n ≡ (
        (remove_connections socket uid device n.active).0,
        record n { active = (remove_connections socket uid device n.active).1 },
      )
  unfolding remove_known_session
  known_alone socket uid none n = refl
  known_alone socket uid (some []) n = refl
  known_alone socket uid (some (c ∷ d)) n = rw alone refl

  -- On a node that stands alone, removing a user's session on a socket leaves Redis as it is, removes
  -- the session of this socket alone and of all connections exactly the user's with the device that is
  -- given, or else the socket's, and gives whether the user has none left.
  pub remove_user_session_alone :
      (socket : ℕ) (uid : Text) (device : Option Text) (n : NodeState S)
      → (((k : ℕ)
            → get_session k (remove_user_session r cfg socket (some uid) device n).1.active
              ≡ (if k == socket then none else get_session k n.active))
          × ((v : Text)
              → get_user_devices v (remove_user_session r cfg socket (some uid) device n).1.active
                ≡ (if same_text v uid
                    then filter
                        (λ c.
                          not (is_device (or_else device (get_device_id socket uid n.active)) c))
                        (get_user_devices uid n.active)
                    else get_user_devices v n.active)))
        × (((remove_user_session r cfg socket (some uid) device n).0
              ≡ is_empty (
                  get_user_devices uid
                    (remove_user_session r cfg socket (some uid) device n).1.active))
            × ((remove_user_session r cfg socket (some uid) device n).1.redis ≡ n.redis))
  unfolding remove_user_session
  remove_user_session_alone socket uid device n =
      let d = or_else device (get_device_id socket uid n.active) in
      rw (known_alone socket uid d n) (
        (
          (λ k. closed_session socket k uid d n.active),
          (λ v. closed_devices socket uid v d n.active),
        ),
        (
          (rw (closed_devices socket uid uid d n.active, same_text_refl uid)
              (last_connection socket uid d n.active)),
          refl,
        ),
      )

no_other :
    (old new : ℕ) (device : Text) (cs : List Connection)
    → count
        (λ c.
          (has_socket old c && not (has_socket new c || has_device device c))
          && not (has_socket old c || has_device device c))
        cs
      ≡ 0
no_other old new device [] = refl
no_other old new device (c ∷ cs) = ground (arith, no_other old new device cs)

-- A device that connects again on a new socket is no device of the socket it had.
replaced_device :
    (old new : ℕ) (org uid device : Text) (a : ActiveSessions)
    → IsConnected a
    → (new == old) ≡ false
    → get_device_id old uid (connected new org uid device (connected old org uid device a)) ≡ none
replaced_device old new org uid device a h differ =
    let b = connected old org uid device a in
    let p : Connection → Bool =
      λ c. has_socket old c && not (has_socket new c || has_device device c) in
    let before : count p (get_user_devices uid b) ≡ 0 =
      connected_count old org uid device a p h
      ∙ (rw (same_text_refl device, ==_refl old)
          (ground (arith, no_other old new device (get_user_devices uid a)))) in
    let gone : count (has_socket old) (get_user_devices uid (connected new org uid device b)) ≡ 0 =
      connected_count new org uid device b (has_socket old)
        (connected-IsConnected old org uid device a h)
      ∙ rw (before, differ) refl in
    rw
      (count-find_none (has_socket old) (get_user_devices uid (connected new org uid device b))
        gone)
      refl

pub session_user :
    (socket : ℕ) (s : SocketSession) (a : ActiveSessions)
    → get_session socket a ≡ some s
    → get_session_user_id socket a ≡ some s.user_id
session_user socket s a h = rw (get_session_user_id, h) refl

found-is_empty :
    (p : Connection → Bool) (d : Text) (cs : List Connection)
    → device_of (find p cs) ≡ some d
    → is_empty cs ≡ false
found-is_empty p d [] h = cc
found-is_empty p d (c ∷ cs) h = refl

-- the state after a device is connected on one socket and then on another
abbrev pub reconnected : {S : Type 0} → ℕ → ℕ → Text → Text → Text → NodeState S → NodeState S
reconnected old new org uid device n = record n {
  active = connected new org uid device (connected old org uid device n.active);
}

module _ {S : Type 0} (r : Redis S) (cfg : NodeConfig)
    (alone : cfg.is_stand_alone_node ≡ true) where
  removed_unnamed :
      (socket : ℕ) (uid : Text) (n : NodeState S)
      → get_session_user_id socket n.active ≡ some uid
      → get_device_id socket uid n.active ≡ none
      → remove_user_session r cfg socket none none n ≡ (
        (remove_connections socket uid none n.active).0,
        record n { active = (remove_connections socket uid none n.active).1 },
      )
  unfolding remove_user_session
  removed_unnamed socket uid n known unknown =
      rw (known, unknown) (known_alone r cfg alone socket uid none n)

  -- On a node that stands alone, where no user had a device or a socket twice and a device connected on
  -- one socket and then on another, closing the socket it had first removes that socket's session: the
  -- device stays with its new socket and the user's last connection is not gone.
  pub remove_user_session-reconnected :
      (old new : ℕ) (org uid device : Text) (n : NodeState S)
      → IsConnected n.active
      → (new == old) ≡ false
      → ((remove_user_session r cfg old none none (reconnected old new org uid device n)).0 ≡ false)
        × ((get_session old
                (remove_user_session r cfg old none none
                  (reconnected old new org uid device n)).1.active
              ≡ none)
            × (get_device_id new uid
                  (remove_user_session r cfg old none none
                    (reconnected old new org uid device n)).1.active
                ≡ some device))
  remove_user_session-reconnected old new org uid device n h differ =
      let b = connected old org uid device n.active in
      let c = connected new org uid device b in
      let swapped : (old == new) ≡ false = ground (arith, differ) in
      let known : get_session_user_id old c ≡ some uid =
        session_user old (new_session org uid device) c (
          connected_session new org uid device old b
          ∙ (rw swapped
              (connected_session old org uid device old n.active ∙ (rw (==_refl old) refl)))) in
      let there : get_device_id new uid c ≡ some device =
        connected_device new org uid device b
          (connected-IsConnected old org uid device n.active h) in
      rw
        (removed_unnamed old uid (reconnected old new org uid device n) known
          (replaced_device old new org uid device n.active h differ))
        (
          (rw (last_connection old uid none c, filter_all (get_user_devices uid c))
              (found-is_empty (has_socket new) device (get_user_devices uid c) there)),
          (
            (rw (closed_session old old uid none c, ==_refl old) refl),
            (rw
                (
                  closed_devices old uid uid none c,
                  same_text_refl uid,
                  filter_all (get_user_devices uid c),
                )
                there),
          ),
        )
