-- ===== src/Activity/Reachable.antt =====
-- The states that the calls of the manager lead to, and who is told of an activity.
use sama_server.Prelude.{
  ℕ, ◌≡◌, ◌↔◌, refl, ◌∙◌, true, List, [], ◌∷◌, Option, none, some, if◌then◌else◌, includes,
  is_empty, ==_refl,
}
use sama_server.Store.{Driver, Store}
use sama_server.Activity.{
  Activity, empty_activity, subscribers, unsubscribe_observer, subscribe_observer_to_target,
  update_user_activity, ActivityUpdate, Status, is_online,
}
use sama_server.Activity.Links.{
  IsLinked, targets-unsubscribe, unsubscribe_observer-IsLinked,
  subscribe_observer_to_target-IsLinked,
}

pub data Reachable (db : Driver) : Activity → Type 0 where
  start : Reachable db empty_activity
  subscribed :
      (a : Activity) (observer target : ℕ)
      → Reachable db a
      → Reachable db (subscribe_observer_to_target observer target a)
  unsubscribed :
      (a : Activity) (observer : ℕ)
      → Reachable db a
      → Reachable db (unsubscribe_observer observer a)
  updated :
      (a : Activity) (uid now : ℕ) (status : Status) (s : Store db)
      → Reachable db a
      → Reachable db (update_user_activity db uid status now (a, s)).1.0

abbrev pub told : Option ActivityUpdate → List ℕ
told none = []
told (some u) = u.subscriber_ids

module _ (db : Driver) where
  update_user_activity-IsLinked :
      (a : Activity) (uid now : ℕ) (status : Status) (s : Store db)
      → IsLinked a
      → IsLinked (update_user_activity db uid status now (a, s)).1.0
  unfolding update_user_activity
  update_user_activity-IsLinked a uid now Status.online s linked = linked
  update_user_activity-IsLinked a uid now Status.offline s linked =
      unsubscribe_observer-IsLinked uid a linked

  -- However the manager is called, the two directions of its relation agree: an observer is among
  -- the subscribers of a target exactly when that target is the one it is subscribed to.
  pub Reachable-IsLinked : (a : Activity) → Reachable db a → IsLinked a
  Reachable-IsLinked a start = λ o t. ((λ h. cc), (λ h. cc))
  Reachable-IsLinked _ (subscribed a observer target r) =
      subscribe_observer_to_target-IsLinked observer target a (Reachable-IsLinked a r)
  Reachable-IsLinked _ (unsubscribed a observer r) =
      unsubscribe_observer-IsLinked observer a (Reachable-IsLinked a r)
  Reachable-IsLinked _ (updated a uid now status s r) =
      update_user_activity-IsLinked a uid now status s (Reachable-IsLinked a r)

  told-update :
      (uid now : ℕ) (status : Status) (a : Activity) (s : Store db)
      → told (update_user_activity db uid status now (a, s)).0
        ≡ subscribers uid (update_user_activity db uid status now (a, s)).1.0
  unfolding update_user_activity
  told-update uid now status a s =
      split (subscribers uid (update_user_activity db uid status now (a, s)).1.0)
    where
      split :
          (ids : List ℕ)
          → told (
              if is_empty ids
              then none
              else some (record {
                subscriber_ids = ids;
                target_user_id = uid;
                timestamp = now;
                status = status;
              }))
            ≡ ids
      split [] = refl
      split (x ∷ xs) = refl

  -- From a reachable state, a change of a user's activity is told to exactly the observers that are
  -- subscribed to the user then; a user who goes offline is subscribed to nobody after that, and one
  -- who comes online stays subscribed.
  pub update_user_activity-told :
      (uid now o : ℕ) (status : Status) (a : Activity) (s : Store db)
      → Reachable db a
      → ((includes o (told (update_user_activity db uid status now (a, s)).0) ≡ true)
          ↔ ((update_user_activity db uid status now (a, s)).1.0.subscribed_to o ≡ some uid))
        × ((update_user_activity db uid status now (a, s)).1.0.subscribed_to uid
            ≡ (if is_online status then a.subscribed_to uid else none))
  unfolding update_user_activity
  update_user_activity-told uid now o status a s reach = (
    rw (told-update uid now status a s)
        (Reachable-IsLinked _ (updated a uid now status s reach) o uid),
    after status,
  )
    where
      after :
          (st : Status)
          → (if is_online st then a else unsubscribe_observer uid a).subscribed_to uid
            ≡ (if is_online st then a.subscribed_to uid else none)
      after Status.online = refl
      after Status.offline = targets-unsubscribe uid uid a ∙ rw (==_refl uid) refl
