-- ===== src/Session.antt =====
-- app/store/session.js and the part of app/providers/services/session/index.js that works on it: the
-- sessions of the sockets of this process, and the connections of each user's devices. An id of a user
-- or an organization is the text that it prints as, which is all that is read of it; an object with
-- users' ids as keys is a function, and an absent key is none.
pub mod Keys
pub mod Node
pub mod Lifecycle
pub mod Distinct
pub mod Connected
pub mod Closing
pub mod Presence
pub mod Storing
pub mod Connecting
pub mod Kept
pub mod Reachable
pub mod Online
pub mod Links
pub mod Contract
use sama_server.Prelude.{
  ℕ, zero, suc, ◌+◌, ◌==◌, Bool, true, false, not, ◌&&◌, ◌||◌, List, [], ◌∷◌, ◌++◌, map, Option,
  none, some, if◌then◌else◌, find, filter, is_empty, length, take, drop, any,
}
use sama_server.Prelude.Text.{Text, same_text}

-- the entries of `extraParams` under SESSION_NODE_KEY, SESSION_INACTIVE_STATE_KEY and
-- SESSION_DEVICE_ID_KEY
pub record ExtraParams : Type 0 where
  pub node_endpoint : Option Text
  pub inactive : Bool
  pub device_id : Option Text

pub record SocketSession : Type 0 where
  pub organization_id : Text
  pub user_id : Text
  pub extra_params : ExtraParams

pub record Connection : Type 0 where
  pub socket : ℕ
  pub device_id : Text
  pub organization_id : Text

-- A Map keeps its entries in the order of their insertion.
pub record ActiveSessions : Type 0 where
  pub sessions : List (ℕ × SocketSession)
  pub devices : Text → Option (List Connection)

abbrev pub no_sessions : ActiveSessions
no_sessions = record { sessions = []; devices = λ _. none }

-- HTTP_DEVICE_ID, "SAMA_HTTP_CLIENT_DEVICE_ID"
abbrev pub http_device_id : Text
http_device_id =
    83 ∷ 65 ∷ 77 ∷ 65 ∷ 95 ∷ 72 ∷ 84 ∷ 84 ∷ 80 ∷ 95 ∷ 67 ∷ 76 ∷ 73 ∷ 69 ∷ 78 ∷ 84 ∷ 95 ∷ 68 ∷ 69
    ∷ 86 ∷ 73 ∷ 67 ∷ 69 ∷ 95 ∷ 73 ∷ 68 ∷ []

-- Map.prototype.get, has, set and delete
abbrev pub map_get {ℓ} : {V : Type ℓ} → ℕ → List (ℕ × V) → Option V
map_get k [] = none
map_get k ((j, v) ∷ m) = if j == k then some v else map_get k m

abbrev pub map_set {ℓ} : {V : Type ℓ} → ℕ → V → List (ℕ × V) → List (ℕ × V)
map_set k v [] = (k, v) ∷ []
map_set k v ((j, w) ∷ m) = if j == k then (k, v) ∷ m else (j, w) ∷ map_set k v m

abbrev pub map_delete {ℓ} : {V : Type ℓ} → ℕ → List (ℕ × V) → List (ℕ × V)
map_delete k m = filter (λ e. not (e.0 == k)) m

abbrev pub total_sessions : ActiveSessions → ℕ
total_sessions a = length a.sessions

abbrev pub get_session : ℕ → ActiveSessions → Option SocketSession
get_session socket a = map_get socket a.sessions

unfoldable pub set_session : ℕ → Text → Text → ExtraParams → ActiveSessions → ActiveSessions
set_session socket org uid extra a = record a {
  sessions =
      map_set socket (record { organization_id = org; user_id = uid; extra_params = extra })
        a.sessions;
}

-- The deletion of an absent entry changes nothing, so `if (session)` needs no case.
unfoldable pub set_session_user_id : ℕ → Text → Text → ExtraParams → ActiveSessions → ActiveSessions
unfolding set_session
set_session_user_id socket org uid extra a =
    set_session socket org uid extra (record a { sessions = map_delete socket a.sessions })

abbrev pub get_session_user_id : ℕ → ActiveSessions → Option Text
get_session_user_id socket a = elim (get_session socket a) [ none ↦ none | some s ↦ some s.user_id ]

abbrev pub connections : Option (List Connection) → List Connection
connections none = []
connections (some cs) = cs

abbrev pub get_user_devices : Text → ActiveSessions → List Connection
get_user_devices uid a = connections (a.devices uid)

abbrev pub has_socket : ℕ → Connection → Bool
has_socket socket c = c.socket == socket

abbrev pub has_device : Text → Connection → Bool
has_device device c = same_text c.device_id device

abbrev pub device_of : Option Connection → Option Text
device_of none = none
device_of (some c) = some c.device_id

abbrev pub get_device_id : ℕ → Text → ActiveSessions → Option Text
get_device_id socket uid a = device_of (find (has_socket socket) (get_user_devices uid a))

-- The connections other than the first with the socket and the first with the device, which `find`
-- gives: the flags say that these were met.
abbrev pub other_connections : ℕ → Text → Bool → Bool → List Connection → List Connection
other_connections socket device met_socket met_device [] = []
other_connections socket device met_socket met_device (c ∷ cs) =
    let rest =
      other_connections socket device (met_socket || has_socket socket c)
        (met_device || has_device device c) cs in
    if (has_socket socket c && not met_socket) || (has_device device c && not met_device)
    then rest
    else c ∷ rest

-- the result of `addUserDeviceConnection`
pub record Replaced : Type 0 where
  pub same_device_connection : Option Connection
  pub same_socket_connection : Option Connection

-- `object[key] = value`, and with none `delete object[key]`
abbrev pub put_devices : Text → Option (List Connection) → ActiveSessions → ActiveSessions
put_devices uid cs a = record a { devices = λ v. if same_text v uid then cs else a.devices v }

abbrev pub device_params : Text → ExtraParams
device_params device = record { node_endpoint = none; inactive = false; device_id = some device }

unfoldable pub add_user_device_connection :
    ℕ → Text → Text → Text → ActiveSessions → Replaced × ActiveSessions
unfolding set_session_user_id
add_user_device_connection socket org uid device a =
    let active = get_user_devices uid a in
    let connection : Connection = record {
      socket = socket;
      device_id = device;
      organization_id = org;
    } in
    let others = other_connections socket device false false active in
    (
      record {
        same_device_connection = find (has_device device) active;
        same_socket_connection = find (has_socket socket) active;
      },
      set_session_user_id socket org uid (device_params device)
          (put_devices uid (some (others ++ connection ∷ [])) a),
    )

unfoldable pub list_user_device_local : Text → ActiveSessions → List Text
list_user_device_local uid a =
    filter (λ d. not (same_text d http_device_id)) (map (λ c. c.device_id) (get_user_devices uid a))

-- An undefined device is the device of no connection.
abbrev pub is_device : Option Text → Connection → Bool
is_device none c = false
is_device (some d) c = same_text c.device_id d

abbrev pub some_connections : List Connection → Option (List Connection)
some_connections [] = none
some_connections (c ∷ cs) = some (c ∷ cs)

-- What `removeUserSession` does here: the connections with the device go, whatever their sockets, and
-- so does the session of the socket. The flag says that no connection is left.
unfoldable pub remove_connections : ℕ → Text → Option Text → ActiveSessions → Bool × ActiveSessions
remove_connections socket uid device a =
    let left = filter (λ c. not (is_device device c)) (get_user_devices uid a) in
    let b = put_devices uid (some_connections left) a in
    (is_empty left, record b { sessions = map_delete socket b.sessions })

abbrev pub or_else {ℓ} : {A : Type ℓ} → Option A → Option A → Option A
or_else none other = other
or_else (some a) other = some a

abbrev pub is_device_id : Text → Option Text → Bool
is_device_id d none = false
is_device_id d (some e) = same_text d e

-- the filter of retrieveLocalActiveSessionUserIds
abbrev pub is_online_session : Text → ActiveSessions → ℕ × SocketSession → Bool
is_online_session org a (socket, s) =
    same_text s.organization_id org
    && (not (is_device_id http_device_id s.extra_params.device_id)
        && (not (is_empty s.user_id) && not (is_empty (list_user_device_local s.user_id a))))

-- `Array.from(new Set(xs))`, where `same` says which values a Set takes for one
abbrev pub distinct : (Text → Text → Bool) → List Text → List Text
distinct same [] = []
distinct same (x ∷ xs) = x ∷ filter (λ y. not (same x y)) (distinct same xs)

-- `sort` is what Array.prototype.sort makes of ids whose differences are compared, and `same` what a
-- Set says of two of them: it compares objects by identity.
module _ (sort : List Text → List Text) (same : Text → Text → Bool) where
  unfoldable pub retrieve_local_active_session_user_ids : Text → ActiveSessions → List Text
  retrieve_local_active_session_user_ids org a =
      distinct same (sort (map (λ e. e.1.user_id) (filter (is_online_session org a) a.sessions)))

  unfoldable pub online_users_list_local : Text → ℕ → ℕ → ActiveSessions → List Text
  online_users_list_local org offset limit a =
      take limit (drop offset (retrieve_local_active_session_user_ids org a))

  unfoldable pub online_users_count_local : Text → ActiveSessions → ℕ
  online_users_count_local org a = length (retrieve_local_active_session_user_ids org a)

-- `session?.extraParams[SESSION_INACTIVE_STATE_KEY]`, or that of the parameters where there is no session
abbrev pub is_user_inactive : Option ℕ → ExtraParams → ActiveSessions → Bool
is_user_inactive none extra a = extra.inactive
is_user_inactive (some socket) extra a = elim (get_session socket a) [
  | none ↦ extra.inactive
  | some s ↦ s.extra_params.inactive
]

-- An assignment to the parameters of the session that a socket has, which is an object of the Map.
abbrev pub change_params : (ExtraParams → ExtraParams) → ℕ × SocketSession → ℕ × SocketSession
change_params f (socket, s) = (socket, record s { extra_params = f s.extra_params })

unfoldable pub update_params : ℕ → (ExtraParams → ExtraParams) → ActiveSessions → ActiveSessions
update_params socket f a = record a {
  sessions = map (λ e. if e.0 == socket then change_params f e else e) a.sessions;
}
