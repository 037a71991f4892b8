-- ===== src/Session/Contract.antt =====
-- The methods of the session service keep what Links promises of them.
use sama_server.Prelude.{
  ℕ, ◌==◌, ◌≡◌, refl, ◌∙◌, subst, Bool, true, not, ◌&&◌, ◌||◌, List, [], ◌∷◌, none, some,
  if◌then◌else◌, any, any-count, count, arith, Bool-cases, inl, inr, ==_iff,
}
use sama_server.Prelude.Text.{Text, same_text, same_text_iff, same_text_sym}
use sama_server.Redis.{Redis}
use sama_server.Session.{
  Connection, ActiveSessions, get_user_devices, get_session, get_device_id, get_session_user_id,
  has_socket, has_device, remove_connections, add_user_device_connection,
}
use sama_server.Session.Node.{NodeConfig, NodeState, text_or}
use sama_server.Session.Lifecycle.{remove_user_session, remove_known_session, null_text}
use sama_server.Session.Distinct.{IsConnected}
use sama_server.Session.Connected.{
  new_session, connected, connected_count, connected_session, connected_devices,
  add_user_device_connection-IsConnected,
}
use sama_server.Session.Closing.{
  known_alone, closed_devices, closed_session, remove_connections-IsConnected, session_user,
}
use sama_server.Session.Links.{
  Links, Call, connect, close, promised, all_promised, is_link, Agrees, find-is_link, any-filter,
  same_device,
}

count-decided :
    (p q : Connection → Bool) (b : Bool) (cs : List Connection)
    → ((c : Connection) → p c ≡ true → q c ≡ b)
    → count (λ c. p c && not (q c)) cs ≡ (if b then 0 else count p cs)
count-decided p q b [] h = ground arith
count-decided p q b (c ∷ cs) h = ground (arith, count-decided p q b cs h, h c)

replaced_link :
    (k socket : ℕ) (d device : Text) (c : Connection)
    → is_link k d c ≡ true
    → (has_socket socket c || has_device device c) ≡ (k == socket || same_text d device)
replaced_link k socket d device c h =
    rw (same_device d device c.device_id (ground arith), (==_iff c.socket k).0 (ground arith)) refl

same_user :
    (k : ℕ) (a b : ActiveSessions)
    → get_session k a ≡ get_session k b
    → get_session_user_id k a ≡ get_session_user_id k b
same_user k a b e = rw (get_session_user_id, e) refl

no_user : (k : ℕ) (a : ActiveSessions) → get_session k a ≡ none → get_session_user_id k a ≡ none
no_user k a e = rw (get_session_user_id, e) refl

module _ (socket : ℕ) (org uid device : Text) (a : ActiveSessions) (good : IsConnected a) where
  connected-user :
      (k : ℕ)
      → get_session_user_id k (connected socket org uid device a)
        ≡ (if k == socket then some uid else get_session_user_id k a)
  connected-user k = elim (Bool-cases (k == socket)) [
    | inl e ↦ rw e (
        session_user k (new_session org uid device) (connected socket org uid device a)
          (connected_session socket org uid device k a ∙ (rw e refl)))
    | inr e ↦ rw e (
        same_user k (connected socket org uid device a) a
          (connected_session socket org uid device k a ∙ (rw e refl)))
  ]

  connected-linked :
      (k : ℕ) (d : Text)
      → any (is_link k d) (get_user_devices uid (connected socket org uid device a)) ≡ (
          (k == socket && same_text d device)
          || (any (is_link k d) (get_user_devices uid a)
              && not (k == socket || same_text d device)))
  connected-linked k d =
      let cs = get_user_devices uid a in
      let gone = k == socket || same_text d device in
      rw
        (
          any-count (is_link k d) (get_user_devices uid (connected socket org uid device a)),
          connected_count socket org uid device a (is_link k d) good,
          count-decided (is_link k d) (λ c. has_socket socket c || has_device device c) gone cs
              (λ c. replaced_link k socket d device c),
          any-count (is_link k d) cs,
          same_text_sym device d,
        )
        (ground arith)

connect-Agrees :
    (socket : ℕ) (org uid device : Text) (a : ActiveSessions) (l : Links)
    → IsConnected a
    → Agrees a l
    → Agrees (connected socket org uid device a) (promised (connect socket org uid device) l)
connect-Agrees socket org uid device a l good (users, links) = (
  λ k. connected-user socket org uid device a good k ∙ (rw (users k) refl),
  λ v k d. elim (Bool-cases (same_text v uid)) [
    | inl e ↦
        rw
          (
            e,
            (same_text_iff v uid).0 e,
            connected-linked socket org uid device a good k d,
            links uid k d,
          )
          refl
    | inr e ↦ rw (connected_devices socket org uid device v a, e) (links v k d)
  ],
)

closed-Agrees :
    (socket : ℕ) (uid : Text) (a : ActiveSessions) (l : Links)
    → text_or (l.user_of socket) null_text ≡ uid
    → IsConnected a
    → Agrees a l
    → Agrees
        (remove_connections socket uid (get_device_id socket uid a) a).1
        (promised (close socket) l)
closed-Agrees socket uid a l named good (users, links) =
    let device = get_device_id socket uid a in
    let b = (remove_connections socket uid device a).1 in
    (
      λ k. elim (Bool-cases (k == socket)) [
        | inl e ↦ rw e (no_user k b (closed_session socket k uid device a ∙ (rw e refl)))
        | inr e ↦
            rw e (same_user k b a (closed_session socket k uid device a ∙ (rw e refl)) ∙ users k)
      ],
      λ v k d. rw named (elim (Bool-cases (same_text v uid)) [
        | inl e ↦
            rw
              (
                closed_devices socket uid v device a,
                e,
                any-filter k d device (get_user_devices uid a),
                find-is_link socket d (get_user_devices uid a) ((good uid).1 socket),
                links uid k d,
                links uid socket d,
              )
              refl
        | inr e ↦ rw (closed_devices socket uid v device a, e) (links v k d)
      ]),
    )

module _ {S : Type 0} (r : Redis S) (cfg : NodeConfig)
    (alone : cfg.is_stand_alone_node ≡ true) where
  closing :
      (socket : ℕ) (uid : Text) (n : NodeState S)
      → text_or (get_session_user_id socket n.active) null_text ≡ uid
      → remove_user_session r cfg socket none none n ≡ (
        (remove_connections socket uid (get_device_id socket uid n.active) n.active).0,
        record n {
          active = (remove_connections socket uid (get_device_id socket uid n.active) n.active).1;
        },
      )
  unfolding remove_user_session
  closing socket uid n e =
      subst
        (λ u.
          remove_known_session r cfg socket
            (text_or (get_session_user_id socket n.active) null_text)
            (get_device_id socket (text_or (get_session_user_id socket n.active) null_text)
              n.active)
            n
          ≡ (
            (remove_connections socket u (get_device_id socket u n.active) n.active).0,
            record n {
              active = (remove_connections socket u (get_device_id socket u n.active) n.active).1;
            },
          ))
        e
        (known_alone r cfg alone socket (text_or (get_session_user_id socket n.active) null_text)
          (get_device_id socket (text_or (get_session_user_id socket n.active) null_text) n.active)
          n)

  close-Agrees :
      (socket : ℕ) (n : NodeState S) (l : Links)
      → IsConnected n.active
      → Agrees n.active l
      → Agrees (remove_user_session r cfg socket none none n).1.active (promised (close socket) l)
  close-Agrees socket n l good (users, links) =
      let uid = text_or (l.user_of socket) null_text in
      let e : text_or (get_session_user_id socket n.active) null_text ≡ uid =
        rw (users socket) refl in
      rw (closing socket uid n e) (closed-Agrees socket uid n.active l refl good (users, links))

  -- The calls in order, each with the whole state of the node.
  unfoldable pub run : List Call → NodeState S → NodeState S
  run [] n = n
  run (connect socket org uid device ∷ cs) n =
      run cs (record n { active = (add_user_device_connection socket org uid device n.active).1 })
  run (close socket ∷ cs) n = run cs (remove_user_session r cfg socket none none n).1

  run-IsConnected :
      (c : Call) (n : NodeState S) → IsConnected n.active → IsConnected (run (c ∷ []) n).active
  unfolding run
  run-IsConnected (connect socket org uid device) n good =
      add_user_device_connection-IsConnected socket org uid device n.active good
  run-IsConnected (close socket) n good =
      let uid = text_or (get_session_user_id socket n.active) null_text in
      rw (run, closing socket uid n refl)
        (remove_connections-IsConnected socket uid (get_device_id socket uid n.active) n.active
          good)

  -- On a node that stands alone, whatever devices connect and sockets close, in whatever order, the
  -- sockets have the users, and the users the links of sockets and devices, that are promised.
  pub run-Agrees :
      (cs : List Call) (n : NodeState S) (l : Links)
      → IsConnected n.active
      → Agrees n.active l
      → Agrees (run cs n).active (all_promised cs l)
  unfolding run connected
  run-Agrees [] n l good same = same
  run-Agrees (connect socket org uid device ∷ cs) n l good same =
      run-Agrees cs (record n { active = connected socket org uid device n.active }) _
        (run-IsConnected (connect socket org uid device) n good)
        (connect-Agrees socket org uid device n.active l good same)
  run-Agrees (close socket ∷ cs) n l good same =
      run-Agrees cs (remove_user_session r cfg socket none none n).1 _
        (run-IsConnected (close socket) n good) (close-Agrees socket n l good same)
