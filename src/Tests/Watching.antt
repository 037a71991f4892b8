-- ===== src/Tests/Watching.antt =====
-- Two observers of one user, one of whom changes to another target.
use sama_server.Prelude.{◌≡◌, ◌↔◌, refl, true, [], ◌∷◌, some, none, includes}
use sama_server.Activity.{
  Activity, Status, subscribers, empty_activity, subscribe_observer_to_target, update_user_activity,
}
use sama_server.Activity.Links.{IsLinked}
use sama_server.Activity.Reachable.{
  Reachable, start, subscribed, told, Reachable-IsLinked, update_user_activity-told,
}
use sama_server.Tests.Samples.{in_memory, sample, code}

abbrev watched : Activity
watched =
    subscribe_observer_to_target 1 4
      (subscribe_observer_to_target 2 3 (subscribe_observer_to_target 1 3 empty_activity))

watched-Reachable : Reachable in_memory watched
watched-Reachable = subscribed _ 1 4 (subscribed _ 2 3 (subscribed _ 1 3 start))

watchers : subscribers 3 watched ≡ 2 ∷ []
unfolding code
watchers = refl

Reachable-IsLinked_example : IsLinked watched
Reachable-IsLinked_example = Reachable-IsLinked in_memory watched watched-Reachable

update_user_activity-told_example :
    ((includes 2 (told (update_user_activity in_memory 3 Status.offline 500 (watched, sample)).0)
        ≡ true)
      ↔ ((update_user_activity in_memory 3 Status.offline 500 (watched, sample)).1.0.subscribed_to 2
          ≡ some 3))
    × ((update_user_activity in_memory 3 Status.offline 500 (watched, sample)).1.0.subscribed_to 3
        ≡ none)
update_user_activity-told_example =
    update_user_activity-told in_memory 3 500 2 Status.offline watched sample watched-Reachable
