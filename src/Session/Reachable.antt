-- ===== src/Session/Reachable.antt =====
-- The sessions and devices that any sequence of the session service's methods leads to.
use sama_server.Prelude.{ℕ, Bool, Option, arith}
use sama_server.Prelude.Text.{Text}
use sama_server.Redis.{Redis}
use sama_server.Session.{
  ExtraParams, ActiveSessions, no_sessions, add_user_device_connection, set_session_user_id,
  set_session,
}
use sama_server.Session.Node.{NodeConfig, NodeState, list_user_device, remove_all_user_device_data}
use sama_server.Session.Lifecycle.{
  store_user_node_data, connect_device, remove_user_session, remove_all_user_sessions,
  set_session_inactive_state, clear_node_users_session,
}
use sama_server.Session.Distinct.{IsConnected}
use sama_server.Session.Connected.{add_user_device_connection-IsConnected}
use sama_server.Session.Kept.{
  stored-IsConnected, removed_active, connect_device-IsConnected, remove_user_session-IsConnected,
  remove_all_user_sessions-IsConnected, set_session_inactive_state-IsConnected,
  clear_node_users_session-IsConnected, moved, listed_active,
}

-- One call of a method of the service that changes the sessions, of which the state remains; or a
-- change of Redis by anything else, another process of the cluster or a method that writes there only.
pub data Step {S : Type 0} (r : Redis S) (cfg : NodeConfig)
    : NodeState S → NodeState S → Type 0 where
  connecting :
      (socket : ℕ) (org uid device : Text) (n : NodeState S)
      → Step r cfg n (connect_device r cfg socket org uid device n)
  adding :
      (socket : ℕ) (org uid device : Text) (n : NodeState S)
      → Step r cfg n
          (record n { active = (add_user_device_connection socket org uid device n.active).1 })
  storing :
      (socket : ℕ) (org uid device : Text) (n : NodeState S)
      → Step r cfg n (store_user_node_data r cfg socket org uid device n)
  removing_data :
      (org uid device : Text) (n : NodeState S)
      → Step r cfg n (remove_all_user_device_data r cfg org uid device n).1
  setting :
      (socket : ℕ) (org uid : Text) (extra : ExtraParams) (n : NodeState S)
      → Step r cfg n (record n { active = set_session_user_id socket org uid extra n.active })
  elsewhere : (s : S) (n : NodeState S) → Step r cfg n (record n { redis = s })
  closing :
      (socket : ℕ) (user device : Option Text) (n : NodeState S)
      → Step r cfg n (remove_user_session r cfg socket user device n).1
  removing : (socket : ℕ) (n : NodeState S) → Step r cfg n (remove_all_user_sessions r cfg socket n)
  changing :
      (socket : ℕ) (inactive : Bool) (n : NodeState S)
      → Step r cfg n (set_session_inactive_state r cfg socket inactive n).1
  clearing :
      (endpoint : Text) (n : NodeState S)
      → Step r cfg n (clear_node_users_session r cfg endpoint n).1
  listing :
      (org uid : Text) (flag : Bool) (n : NodeState S)
      → Step r cfg n (list_user_device r cfg org uid flag n).1

-- The states that lists of calls lead to from a process that just started.
pub data Reachable {S : Type 0} (r : Redis S) (cfg : NodeConfig) : NodeState S → Type 0 where
  started : (s : S) → Reachable r cfg (record { active = no_sessions; redis = s })
  after : {m n : NodeState S} → Reachable r cfg m → Step r cfg m n → Reachable r cfg n

set_session_user_id-IsConnected :
    (socket : ℕ) (org uid : Text) (extra : ExtraParams) (a : ActiveSessions)
    → IsConnected a
    → IsConnected (set_session_user_id socket org uid extra a)
unfolding set_session_user_id set_session
set_session_user_id-IsConnected socket org uid extra a h = h

module _ {S : Type 0} (r : Redis S) (cfg : NodeConfig) where
  Step-IsConnected :
      (m n : NodeState S) → Step r cfg m n → IsConnected m.active → IsConnected n.active
  Step-IsConnected _ _ (connecting socket org uid device m) h =
      connect_device-IsConnected r cfg socket org uid device m h
  Step-IsConnected _ _ (adding socket org uid device m) h =
      add_user_device_connection-IsConnected socket org uid device m.active h
  Step-IsConnected _ _ (storing socket org uid device m) h =
      stored-IsConnected r cfg socket org uid device m h
  Step-IsConnected _ _ (removing_data org uid device m) h =
      moved r cfg (remove_all_user_device_data r cfg org uid device m).1 m
        (removed_active r cfg org uid device m) h
  Step-IsConnected _ _ (setting socket org uid extra m) h =
      set_session_user_id-IsConnected socket org uid extra m.active h
  Step-IsConnected _ _ (elsewhere s m) h = h
  Step-IsConnected _ _ (closing socket user device m) h =
      remove_user_session-IsConnected r cfg socket user device m h
  Step-IsConnected _ _ (removing socket m) h = remove_all_user_sessions-IsConnected r cfg socket m h
  Step-IsConnected _ _ (changing socket inactive m) h =
      set_session_inactive_state-IsConnected r cfg socket inactive m h
  Step-IsConnected _ _ (clearing endpoint m) h =
      clear_node_users_session-IsConnected r cfg endpoint m h
  Step-IsConnected _ _ (listing org uid flag m) h =
      moved r cfg (list_user_device r cfg org uid flag m).1 m (listed_active r cfg org uid flag m) h

  -- Whatever calls of the service are made after the start of a process, in whatever order, whatever
  -- else changes Redis in between, and on a node of a cluster or one that stands alone, no user has two connections with one device or with
  -- one socket.
  pub Reachable-IsConnected : (n : NodeState S) → Reachable r cfg n → IsConnected n.active
  Reachable-IsConnected _ (started s) = λ v. ((λ d. omega arith), λ k. omega arith)
  Reachable-IsConnected n (after {m} reached step) =
      Step-IsConnected m n step (Reachable-IsConnected m reached)
