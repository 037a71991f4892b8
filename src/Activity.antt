-- ===== src/Activity.antt =====
-- app/store/activity.js and app/providers/services/activity_manager/activity_manager_standalone/index.js:
-- who watches the activity of whom. An object with users' ids as keys is a function, and an absent key
-- is none; the inner object, whose values are all true, is the list of its keys.
pub mod Links
pub mod Reachable
pub mod Cluster
use sama_server.Prelude.{
  ℕ, ◌==◌, Bool, true, false, not, List, [], ◌∷◌, Option, none, some, if◌then◌else◌, includes,
  filter, is_empty,
}
use sama_server.Store.{User, Driver, Store}
use sama_server.Repositories.Users.{update_activity}

pub record Activity : Type 0 where
  pub subscribed_to : ℕ → Option ℕ
  pub subscribers_map : ℕ → Option (List ℕ)

-- the store when the module is loaded
abbrev pub empty_activity : Activity
empty_activity = record { subscribed_to = λ _. none; subscribers_map = λ _. none }

-- `object[key] = value`
abbrev pub put : {A : Type 0} → ℕ → A → (ℕ → A) → ℕ → A
put k v f x = if x == k then v else f x

abbrev pub subscribe_target : ℕ → Activity → Option ℕ
subscribe_target observer a = a.subscribed_to observer

unfoldable pub add_subscribe_target : ℕ → ℕ → Activity → Activity
add_subscribe_target observer target a = record a {
  subscribed_to = put observer (some target) a.subscribed_to;
}

unfoldable pub delete_subscribe_target : ℕ → Activity → Activity
delete_subscribe_target observer a = record a { subscribed_to = put observer none a.subscribed_to }

unfoldable pub clear_all_subscription_targets : ℕ → Activity → Activity
clear_all_subscription_targets observer a = record a {
  subscribed_to = put observer none a.subscribed_to;
}

abbrev pub keys : Option (List ℕ) → List ℕ
keys none = []
keys (some xs) = xs

abbrev pub subscribers : ℕ → Activity → List ℕ
subscribers target a = keys (a.subscribers_map target)

unfoldable pub add_subscriber : ℕ → ℕ → Activity → Activity
add_subscriber target observer a =
    let xs = subscribers target a in
    let ys = if includes observer xs then xs else observer ∷ xs in
    record a { subscribers_map = put target (some ys) a.subscribers_map }

-- `if (object) delete object[key]`: an absent object stays absent.
abbrev pub without : ℕ → Option (List ℕ) → Option (List ℕ)
without observer none = none
without observer (some xs) = some (filter (λ x. not (x == observer)) xs)

-- An undefined target is no key of the object.
unfoldable pub delete_subscriber : Option ℕ → ℕ → Activity → Activity
delete_subscriber none observer a = a
delete_subscriber (some target) observer a = record a {
  subscribers_map = put target (without observer (a.subscribers_map target)) a.subscribers_map;
}

unfoldable pub clear_subscribed : ℕ → Activity → Activity
clear_subscribed target a = record a { subscribers_map = put target (some []) a.subscribers_map }

unfoldable pub unsubscribe_observer : ℕ → Activity → Activity
unsubscribe_observer observer a =
    let target = subscribe_target observer a in
    delete_subscriber target observer (delete_subscribe_target observer a)

unfoldable pub subscribe_observer_to_target : ℕ → ℕ → Activity → Activity
subscribe_observer_to_target observer target a =
    add_subscriber target observer
      (add_subscribe_target observer target (unsubscribe_observer observer a))

pub data Status : Type 0 where
  online offline : Status

abbrev pub is_online : Status → Bool
is_online online = true
is_online offline = false

pub record ActivityUpdate : Type 0 where
  pub subscriber_ids : List ℕ
  pub target_user_id : ℕ
  pub timestamp : ℕ
  pub status : Status

module _ (db : Driver) where
  -- `now` is the time in seconds. The result is none where nobody is to be told.
  unfoldable pub update_user_activity :
      ℕ → Status → ℕ → Activity × Store db → Option ActivityUpdate × (Activity × Store db)
  update_user_activity uid status now (a, s) =
      let s' = record s { users = update_activity db.users uid now s.users } in
      let a' = if is_online status then a else unsubscribe_observer uid a in
      let ids = subscribers uid a' in
      let update : ActivityUpdate = record {
        subscriber_ids = ids;
        target_user_id = uid;
        timestamp = now;
        status = status;
      } in
      (if is_empty ids then none else some update, (a', s'))
