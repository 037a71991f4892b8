-- ===== src/Tests/Sessions.antt =====
-- Two devices of one user on a node that stands alone, and scans of Redis with two replies.
use sama_server.Prelude.{
  ℕ, ◌+◌, ◌≡◌, refl, Bool, true, false, not, ◌&&◌, ◌||◌, List, [], ◌∷◌, none, some, if◌then◌else◌,
  count, filter, any, ◌==◌, is_empty, take, drop, arith,
}
use sama_server.Prelude.Text.{Text, same_text, same_text_iff, includes_text}
use sama_server.Redis.Memory.{Stored, redis, empty_redis}
use sama_server.Redis.Scan.{
  ScanReply, all_keys, scan_with_pagination, at_least_one, scan_with_pagination_lem, take_keys,
  scan_loop,
}
use sama_server.Session.{
  Connection, ActiveSessions, no_sessions, get_session, get_user_devices, get_device_id, has_socket,
  has_device, is_device, or_else, retrieve_local_active_session_user_ids, list_user_device_local,
  add_user_device_connection, set_session_user_id, set_session,
}
use sama_server.Session.Keys.{
  parse_member, user_connection_member, parse_member-user_connection_member,
}
use sama_server.Session.Node.{NodeConfig, NodeState}
use sama_server.Session.Lifecycle.{remove_user_session, connect_device}
use sama_server.Session.Distinct.{IsConnected}
use sama_server.Session.Connected.{
  connected, new_session, new_connection, add_user_device_connection_lem, connected-IsConnected,
}
use sama_server.Session.Closing.{
  reconnected, remove_user_session_alone, remove_user_session-reconnected,
}
use sama_server.Session.Reachable.{started, after, connecting, closing, Reachable-IsConnected}
use sama_server.Session.Links.{Links, Call, connect, close, all_promised, Agrees}
use sama_server.Session.Contract.{run, run-Agrees}
use sama_server.Session.Online.{
  is_session_of, is_connected, retrieve_local_active_session_user_ids-online,
}

abbrev pub org : Text
org = 111 ∷ []

abbrev pub alice : Text
alice = 97 ∷ []

abbrev pub phone : Text
phone = 112 ∷ []

abbrev pub tablet : Text
tablet = 116 ∷ []

abbrev alone : NodeConfig
alone = record { is_stand_alone_node = true; cluster_endpoint = [] }

abbrev by_phone : ActiveSessions
by_phone = connected 2 org alice phone no_sessions

pub no_sessions-IsConnected : IsConnected no_sessions
no_sessions-IsConnected v = ((λ d. omega arith), λ k. omega arith)

by_phone-IsConnected : IsConnected by_phone
by_phone-IsConnected = connected-IsConnected 2 org alice phone no_sessions no_sessions-IsConnected

add_user_device_connection_lem_example :
    (get_device_id 3 alice (connected 3 org alice tablet by_phone) ≡ some tablet)
    × (((k : ℕ)
          → get_session k (connected 3 org alice tablet by_phone)
            ≡ (if k == 3 then some (new_session org alice tablet) else get_session k by_phone))
        × (((p : Connection → Bool)
              → count p (get_user_devices alice (connected 3 org alice tablet by_phone))
                ≡ count
                    (λ c. p c && not (has_socket 3 c || has_device tablet c))
                    (get_user_devices alice by_phone)
                  + (if p (new_connection 3 org tablet) then 1 else 0))
            × ((v : Text)
                → get_user_devices v (connected 3 org alice tablet by_phone) ≡ (
                    if same_text v alice
                    then get_user_devices alice (connected 3 org alice tablet by_phone)
                    else get_user_devices v by_phone))))
add_user_device_connection_lem_example =
    add_user_device_connection_lem 3 org alice tablet by_phone by_phone-IsConnected

abbrev both : NodeState Stored
both = record { active = connected 3 org alice tablet by_phone; redis = empty_redis }

remove_user_session_alone_example :
    (((k : ℕ)
        → get_session k (remove_user_session redis alone 2 (some alice) none both).1.active
          ≡ (if k == 2 then none else get_session k both.active))
      × ((v : Text)
          → get_user_devices v (remove_user_session redis alone 2 (some alice) none both).1.active
            ≡ (if same_text v alice
                then filter
                    (λ c. not (is_device (or_else none (get_device_id 2 alice both.active)) c))
                    (get_user_devices alice both.active)
                else get_user_devices v both.active)))
    × (((remove_user_session redis alone 2 (some alice) none both).0
          ≡ is_empty (
              get_user_devices alice
                (remove_user_session redis alone 2 (some alice) none both).1.active))
        × ((remove_user_session redis alone 2 (some alice) none both).1.redis ≡ empty_redis))
remove_user_session_alone_example = remove_user_session_alone redis alone refl 2 alice none both

abbrev home : NodeState Stored
home = record { active = no_sessions; redis = empty_redis }

remove_user_session-reconnected_example :
    ((remove_user_session redis alone 2 none none (reconnected 2 3 org alice phone home)).0 ≡ false)
    × ((get_session 2
            (remove_user_session redis alone 2 none none
              (reconnected 2 3 org alice phone home)).1.active
          ≡ none)
        × (get_device_id 3 alice
              (remove_user_session redis alone 2 none none
                (reconnected 2 3 org alice phone home)).1.active
            ≡ some phone))
remove_user_session-reconnected_example =
    remove_user_session-reconnected redis alone refl 2 3 org alice phone home
      no_sessions-IsConnected refl

abbrev used : NodeState Stored
used =
    (remove_user_session redis alone 2 none none
      (connect_device redis alone 2 org alice phone home)).1

Reachable-IsConnected_example : IsConnected used.active
Reachable-IsConnected_example = Reachable-IsConnected redis alone used (
    after (after (started empty_redis) (connecting 2 org alice phone home)) (closing 2 none none _))

-- The phone connects again on the socket 3, and then its first socket is closed.
abbrev calls : List Call
calls = connect 2 org alice phone ∷ connect 3 org alice phone ∷ close 2 ∷ []

abbrev nothing : Links
nothing = record { user_of = λ _. none; linked = λ _ _ _. false }

still_linked : (all_promised calls nothing).linked alice 3 phone ≡ true
still_linked = refl

run-Agrees_example : Agrees (run redis alone refl calls home).active (all_promised calls nothing)
run-Agrees_example =
    run-Agrees redis alone refl calls home nothing no_sessions-IsConnected
      ((λ k. refl), λ v k d. refl)

parse_member-user_connection_member_example :
    parse_member (user_connection_member org alice phone)
    ≡ record { organization_id = org; user_id = alice; device_id = phone }
parse_member-user_connection_member_example =
    parse_member-user_connection_member org alice phone refl refl refl

abbrev unsorted : List Text → List Text
unsorted xs = xs

equal_texts : (x y : Text) → same_text x y ≡ true → x ≡ y
equal_texts x y h = (same_text_iff x y).0 h

retrieve_local_active_session_user_ids-online_example :
    includes_text alice (retrieve_local_active_session_user_ids unsorted same_text org both.active)
    ≡ (any (is_session_of org alice) both.active.sessions
        && (true && is_connected alice both.active))
retrieve_local_active_session_user_ids-online_example =
    retrieve_local_active_session_user_ids-online unsorted same_text org alice both.active
      (λ p xs. refl) equal_texts

alice_online :
    includes_text alice (retrieve_local_active_session_user_ids unsorted same_text org both.active)
    ≡ true
unfolding retrieve_local_active_session_user_ids connected add_user_device_connection
    set_session_user_id set_session list_user_device_local
alice_online = refl

-- Two replies: the first sends on to the cursor 7.
abbrev replies : ℕ → ScanReply
replies cursor =
    if cursor == 0
    then record { cursor = 7; keys = alice ∷ phone ∷ [] }
    else record { cursor = 0; keys = tablet ∷ [] }

all_replies : all_keys replies 2 0 ≡ some (alice ∷ phone ∷ tablet ∷ [])
unfolding all_keys
all_replies = refl

scan_with_pagination_lem_example :
    scan_with_pagination 1 2 replies 2
    ≡ some (take (at_least_one 2) (drop 1 (alice ∷ phone ∷ tablet ∷ [])))
scan_with_pagination_lem_example =
    scan_with_pagination_lem 1 2 replies 2 (alice ∷ phone ∷ tablet ∷ []) all_replies

scanned : scan_with_pagination 1 2 replies 2 ≡ some (phone ∷ tablet ∷ [])
unfolding scan_with_pagination scan_loop take_keys
scanned = refl
