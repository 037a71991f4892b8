-- ===== src/Activity/Cluster.antt =====
-- app/providers/services/activity_manager/activity_manager_cluster/index.js: the relation of observers
-- and targets in two hashes of Redis, the observers of a target as one text with commas. Ids are the
-- texts they print as, so serializing one changes nothing.
use sama_server.Prelude.{
  ℕ, ◌==◌, ◌≡◌, refl, ap, subst, ◌∙◌, Bool, true, false, not, ◌||◌, List, [], ◌∷◌, ◌++◌, Option,
  none, some, if◌then◌else◌, filter, is_empty, any, arith, Bool-cases, inl, inr,
}
use sama_server.Prelude.Text.{Text, same_text, same_text_refl, same_text_iff, includes_text}
use sama_server.Redis.{Redis}
use sama_server.Activity.{Status, is_online}
use sama_server.Store.{Driver, Store}
use sama_server.Repositories.Users.{update_activity}
use sama_server.Session.{distinct}
use sama_server.Session.Keys.{prepend}

-- ","
abbrev comma : ℕ
comma = 44

-- "sama:subscribed_to" and "sama:subscribers"
abbrev subscribed_to_key : Text
subscribed_to_key =
    115 ∷ 97 ∷ 109 ∷ 97 ∷ 58 ∷ 115 ∷ 117 ∷ 98 ∷ 115 ∷ 99 ∷ 114 ∷ 105 ∷ 98 ∷ 101 ∷ 100 ∷ 95 ∷ 116
    ∷ 111 ∷ []

abbrev subscribers_key : Text
subscribers_key =
    115 ∷ 97 ∷ 109 ∷ 97 ∷ 58 ∷ 115 ∷ 117 ∷ 98 ∷ 115 ∷ 99 ∷ 114 ∷ 105 ∷ 98 ∷ 101 ∷ 114 ∷ 115 ∷ []

-- `split(",")` and `join(",")`
abbrev split_commas : Text → List Text
split_commas [] = [] ∷ []
split_commas (c ∷ s) = let rest = split_commas s in if c == comma then [] ∷ rest else prepend c rest

abbrev join_commas : List Text → Text
join_commas [] = []
join_commas (w ∷ []) = w
join_commas (w ∷ v ∷ ws) = w ++ comma ∷ join_commas (v ∷ ws)

-- An undefined or empty text stands for no target and for no observers.
abbrev target_of : Option Text → Option Text
target_of none = none
target_of (some t) = if is_empty t then none else some t

abbrev observers_of : Option Text → List Text
observers_of none = []
observers_of (some t) = if is_empty t then [] else split_commas t

abbrev added_observer : Text → List Text → List Text
added_observer observer ids = if includes_text observer ids then ids else ids ++ observer ∷ []

module _ {S : Type 0} (r : Redis S) where
  unfoldable pub cluster_subscribe_target : Text → S → Option Text
  cluster_subscribe_target observer s = target_of (r.h_get_all subscribed_to_key s observer)

  unfoldable pub cluster_add_subscribe_target : Text → Text → S → S
  cluster_add_subscribe_target observer target = r.h_set subscribed_to_key ((observer, target) ∷ [])

  unfoldable pub cluster_delete_subscribe_target : Text → S → S
  cluster_delete_subscribe_target observer = r.h_del subscribed_to_key (observer ∷ [])

  unfoldable pub cluster_clear_all_subscription_targets : Text → S → S
  cluster_clear_all_subscription_targets observer = r.h_del subscribed_to_key (observer ∷ [])

  unfoldable pub cluster_subscribers : Text → S → List Text
  cluster_subscribers target s = observers_of (r.h_get_all subscribers_key s target)

  unfoldable pub cluster_clear_subscribed : Text → S → S
  cluster_clear_subscribed target = r.h_del subscribers_key (target ∷ [])

  -- Joined to a text with commas
  unfoldable pub set_subscribers : Text → List Text → S → S
  set_subscribers target ids = r.h_set subscribers_key ((target, join_commas ids) ∷ [])

  unfoldable pub cluster_add_subscriber : Text → Text → S → S
  cluster_add_subscriber target observer s =
      set_subscribers target
        (added_observer observer (distinct same_text (cluster_subscribers target s))) s

  unfoldable pub cluster_delete_subscriber : Text → Text → S → S
  cluster_delete_subscriber target observer s =
      let left =
        filter (λ x. not (same_text x observer))
          (distinct same_text (cluster_subscribers target s)) in
      if is_empty left then cluster_clear_subscribed target s else set_subscribers target left s

  unfoldable pub cluster_unsubscribe_observer : Text → S → S
  cluster_unsubscribe_observer observer s =
      let left = cluster_delete_subscribe_target observer s in
      elim (cluster_subscribe_target observer s) [
        | none ↦ left
        | some target ↦ cluster_delete_subscriber target observer left
      ]

  unfoldable pub cluster_subscribe_observer_to_target : Text → Text → S → S
  cluster_subscribe_observer_to_target observer target s =
      cluster_add_subscriber target observer
        (cluster_add_subscribe_target observer target (cluster_unsubscribe_observer observer s))

-- the result of `updateUserActivity`
pub record ClusterUpdate : Type 0 where
  pub subscriber_ids : List Text
  pub target_user_id : ℕ
  pub timestamp : ℕ
  pub status : Status

-- `printed` is the text that a native id prints as, `now` the time in seconds.
module _ (db : Driver) {S : Type 0} (r : Redis S) (printed : ℕ → Text) where
  unfoldable pub cluster_update_user_activity :
      ℕ → Status → ℕ → S × Store db → Option ClusterUpdate × (S × Store db)
  cluster_update_user_activity uid status now (t, s) =
      let s' = record s { users = update_activity db.users uid now s.users } in
      let t' = if is_online status then t else cluster_unsubscribe_observer r (printed uid) t in
      let ids = cluster_subscribers r (printed uid) t' in
      let update : ClusterUpdate = record {
        subscriber_ids = ids;
        target_user_id = uid;
        timestamp = now;
        status = status;
      } in
      (if is_empty ids then none else some update, (t', s'))

-- Ids with a character and without a comma.
abbrev IsIds : List Text → Type 0
IsIds ids = any (λ w. is_empty w || any (λ c. c == comma) w) ids ≡ false

split_last : (w : Text) → any (λ c. c == comma) w ≡ false → split_commas w ≡ w ∷ []
split_last [] h = refl
split_last (c ∷ w) h =
    let other : (c == comma) ≡ false = ground arith in
    let rest : any (λ c. c == comma) w ≡ false = ground arith in rw (other, split_last w rest) refl

split_first :
    (w rest : Text)
    → any (λ c. c == comma) w ≡ false
    → split_commas (w ++ comma ∷ rest) ≡ w ∷ split_commas rest
split_first [] rest h = refl
split_first (c ∷ w) rest h =
    let other : (c == comma) ≡ false = ground arith in
    let plain : any (λ c. c == comma) w ≡ false = ground arith in
    rw (other, split_first w rest plain) refl

split_commas-join_commas :
    (w : Text) (ws : List Text) → IsIds (w ∷ ws) → split_commas (join_commas (w ∷ ws)) ≡ w ∷ ws
split_commas-join_commas w [] h = split_last w (ground arith)
split_commas-join_commas w (v ∷ ws) h =
    split_first w (join_commas (v ∷ ws)) (ground arith)
    ∙ ap (λ us. w ∷ us) (split_commas-join_commas v ws (ground arith))

joined_given :
    (w : Text) (ws : List Text) → IsIds (w ∷ ws) → is_empty (join_commas (w ∷ ws)) ≡ false
joined_given [] ws h = absurd (cc h)
joined_given (c ∷ w) [] h = refl
joined_given (c ∷ w) (v ∷ ws) h = refl

includes-filter :
    (x y : Text) (xs : List Text)
    → same_text y x ≡ false
    → includes_text x (filter (λ z. not (same_text y z)) xs) ≡ includes_text x xs
includes-filter x y [] h = refl
includes-filter x y (z ∷ xs) h = elim (Bool-cases (same_text y z)) [
  | inl e ↦
      let other : same_text z x ≡ false =
        subst (λ w. same_text w x ≡ false) ((same_text_iff y z).0 e) h in
      rw (e, other) (includes-filter x y xs h)
  | inr e ↦ rw e (ap (λ b. same_text z x || b) (includes-filter x y xs h))
]

includes-distinct :
    (x : Text) (xs : List Text) → includes_text x (distinct same_text xs) ≡ includes_text x xs
includes-distinct x [] = refl
includes-distinct x (y ∷ xs) = elim (Bool-cases (same_text y x)) [
  | inl e ↦ rw e refl
  | inr e ↦ rw e (includes-filter x y (distinct same_text xs) e ∙ includes-distinct x xs)
]

any-append :
    (p : Text → Bool) (xs : List Text) (y : Text) → any p (xs ++ y ∷ []) ≡ (p y || any p xs)
any-append p [] y = refl
any-append p (x ∷ xs) y = ground (arith, any-append p xs y)

added_some : (observer : Text) (ids : List Text) → is_empty (added_observer observer ids) ≡ false
added_some observer [] = refl
added_some observer (w ∷ ws) = elim (Bool-cases (includes_text observer (w ∷ ws))) [
  | inl e ↦ rw e refl
  | inr e ↦ rw e refl
]

includes-added :
    (x observer : Text) (ids : List Text)
    → includes_text x (added_observer observer ids) ≡ (same_text observer x || includes_text x ids)
includes-added x observer ids = elim (Bool-cases (includes_text observer ids)) [
  | inr e ↦ rw e (any-append (λ z. same_text z x) ids observer)
  | inl e ↦ rw e (elim (Bool-cases (same_text observer x)) [
    | inl same ↦
        rw same (subst (λ z. includes_text z ids ≡ true) ((same_text_iff observer x).0 same) e)
    | inr other ↦ rw other refl
  ])
]

module _ {S : Type 0} (r : Redis S) where
  -- The observers that are stored for a target, at least one, read back as they were.
  pub cluster_subscribers-set_subscribers :
      (target w : Text) (ws : List Text) (s : S)
      → IsIds (w ∷ ws)
      → cluster_subscribers r target (set_subscribers r target (w ∷ ws) s) ≡ w ∷ ws
  unfolding cluster_subscribers set_subscribers
  cluster_subscribers-set_subscribers target w ws s h =
      let text = join_commas (w ∷ ws) in
      let stored : r.h_get_all subscribers_key (set_subscribers r target (w ∷ ws) s) target
          ≡ some text =
        r.h_get_all-h_set subscribers_key target subscribers_key ((target, text) ∷ []) s
        ∙ (rw (same_text_refl target) refl) in
      ap observers_of stored ∙ (rw (joined_given w ws h) (split_commas-join_commas w ws h))

  stored_ids :
      (target : Text) (ids : List Text) (s : S)
      → is_empty ids ≡ false
      → IsIds ids
      → cluster_subscribers r target (set_subscribers r target ids s) ≡ ids
  stored_ids target [] s some_one h = absurd (cc some_one)
  stored_ids target (w ∷ ws) s some_one h = cluster_subscribers-set_subscribers target w ws s h

  same_target :
      (target other : Text) (ids : List Text) (s : S)
      → cluster_subscribe_target r other (set_subscribers r target ids s)
        ≡ cluster_subscribe_target r other s
  unfolding cluster_subscribe_target set_subscribers
  same_target target other ids s =
      ap target_of (
        r.h_get_all-h_set subscribed_to_key other subscribers_key ((target, join_commas ids) ∷ [])
          s)

  -- The observers of a target after one more, when all ids have a character and no comma: it is among
  -- them, and so is who was before. The observer's own target is as it was.
  pub cluster_add_subscriber_lem :
      (target observer x : Text) (s : S)
      → IsIds (added_observer observer (distinct same_text (cluster_subscribers r target s)))
      → (includes_text x (cluster_subscribers r target (cluster_add_subscriber r target observer s))
          ≡ (same_text observer x || includes_text x (cluster_subscribers r target s)))
        × (cluster_subscribe_target r observer (cluster_add_subscriber r target observer s)
            ≡ cluster_subscribe_target r observer s)
  unfolding cluster_add_subscriber
  cluster_add_subscriber_lem target observer x s h =
      let before = cluster_subscribers r target s in
      let ids = added_observer observer (distinct same_text before) in
      (
        ap (includes_text x)
              (stored_ids target ids s (added_some observer (distinct same_text before)) h)
            ∙ (includes-added x observer (distinct same_text before)
                ∙ ap (λ b. same_text observer x || b) (includes-distinct x before)),
        same_target target observer ids s,
      )
