-- ===== src/Activity/Links.antt =====
-- How subscribing and unsubscribing change the two directions of the relation.
use sama_server.Prelude.{
  ℕ, ◌==◌, ◌≡◌, ◌↔◌, ◌⊎◌, refl, ◌∙◌, Bool, true, false, not, ◌&&◌, ◌||◌, List, [], ◌∷◌, Option,
  none, some, arith, if◌then◌else◌, includes, filter, Bool-cases, inl, inr, ==_iff, ==_refl, ap,
}
use sama_server.Activity.{
  Activity, keys, without, subscribers, add_subscriber, delete_subscriber, add_subscribe_target,
  delete_subscribe_target, unsubscribe_observer, subscribe_observer_to_target,
}

-- An observer is among the subscribers of the target that it is subscribed to, and of no other.
abbrev pub IsLinked : Activity → Type 0
IsLinked a =
    (observer target : ℕ)
    → (includes observer (subscribers target a) ≡ true) ↔ (a.subscribed_to observer ≡ some target)

includes-insert :
    (o x : ℕ) (xs : List ℕ)
    → includes o (if includes x xs then xs else x ∷ xs) ≡ ((x == o) || includes o xs)
includes-insert o x xs = elim (Bool-cases (includes x xs)) [
  | inr e ↦ rw e refl
  | inl e ↦ elim (Bool-cases (x == o)) [
    | inr d ↦ rw (e, d) refl
    | inl d ↦ rw (e, d) (rw (← (==_iff x o).0 d) e)
  ]
]

includes-filter :
    (o x : ℕ) (xs : List ℕ)
    → includes o (filter (λ y. not (y == x)) xs) ≡ (includes o xs && not (o == x))
includes-filter o x [] = refl
includes-filter o x (y ∷ ys) = ground (arith, includes-filter o x ys)

subscribers-add_subscriber :
    (target observer t o : ℕ) (a : Activity)
    → includes o (subscribers t (add_subscriber target observer a))
      ≡ ((t == target && observer == o) || includes o (subscribers t a))
unfolding add_subscriber
subscribers-add_subscriber target observer t o a = elim (Bool-cases (t == target)) [
  | inr e ↦ rw e refl
  | inl e ↦ rw (e, (==_iff t target).0 e) (includes-insert o observer (subscribers target a))
]

keys-without :
    (x : ℕ) (o : Option (List ℕ)) → keys (without x o) ≡ filter (λ y. not (y == x)) (keys o)
keys-without x none = refl
keys-without x (some xs) = refl

abbrev is_at : Option ℕ → ℕ → Bool
is_at none t = false
is_at (some f) t = t == f

subscribers-delete_subscriber :
    (from : Option ℕ) (observer t o : ℕ) (a : Activity)
    → includes o (subscribers t (delete_subscriber from observer a))
      ≡ (includes o (subscribers t a) && not (o == observer && is_at from t))
unfolding delete_subscriber
subscribers-delete_subscriber none observer t o a = ground arith
subscribers-delete_subscriber (some f) observer t o a = elim (Bool-cases (t == f)) [
  | inr e ↦ rw e (ground arith)
  | inl e ↦
      rw (e, (==_iff t f).0 e, keys-without observer (a.subscribers_map f))
        (includes-filter o observer (subscribers f a) ∙ ground arith)
]

-- Unsubscribing takes the observer from its target and from nowhere else.
subscribers-unsubscribe :
    (observer t o : ℕ) (a : Activity)
    → IsLinked a
    → includes o (subscribers t (unsubscribe_observer observer a))
      ≡ (not (o == observer) && includes o (subscribers t a))
unfolding unsubscribe_observer delete_subscribe_target
subscribers-unsubscribe observer t o a linked =
    subscribers-delete_subscriber (a.subscribed_to observer) observer t o
      (delete_subscribe_target observer a)
    ∙ (elim (Bool-cases (o == observer)) [
      | inr e ↦ rw e (ground arith)
      | inl e ↦
          rw (e, (==_iff o observer).0 e)
            (left_nothing (Bool-cases (includes observer (subscribers t a))))
    ])
  where
    at_target :
        includes observer (subscribers t a) ≡ true → is_at (a.subscribed_to observer) t ≡ true
    at_target h = rw ((linked observer t).0 h) (==_refl t)

    left_nothing :
        (includes observer (subscribers t a) ≡ true) ⊎ (includes observer (subscribers t a) ≡ false)
        → (includes observer (subscribers t a) && not (is_at (a.subscribed_to observer) t)) ≡ false
    left_nothing (inl h) = rw (h, at_target h) refl
    left_nothing (inr h) = rw h refl

targets-delete_subscriber :
    (from : Option ℕ) (observer : ℕ) (a : Activity)
    → (delete_subscriber from observer a).subscribed_to ≡ a.subscribed_to
unfolding delete_subscriber
targets-delete_subscriber none observer a = refl
targets-delete_subscriber (some f) observer a = refl

pub targets-unsubscribe :
    (observer o : ℕ) (a : Activity)
    → (unsubscribe_observer observer a).subscribed_to o
      ≡ (if o == observer then none else a.subscribed_to o)
unfolding unsubscribe_observer delete_subscribe_target
targets-unsubscribe observer o a =
    ap (λ f. f o)
      (targets-delete_subscriber (a.subscribed_to observer) observer
        (delete_subscribe_target observer a))

-- Subscribing moves the observer to the new target alone; all others stay where they were.
pub subscribe_observer_to_target_lem :
    (observer target : ℕ) (a : Activity)
    → IsLinked a
    → (t o : ℕ)
    → (includes o (subscribers t (subscribe_observer_to_target observer target a))
        ≡ (if o == observer then t == target else includes o (subscribers t a)))
      × ((subscribe_observer_to_target observer target a).subscribed_to o
          ≡ (if o == observer then some target else a.subscribed_to o))
unfolding subscribe_observer_to_target add_subscribe_target add_subscriber
subscribe_observer_to_target_lem observer target a linked t o = (
  subscribers-add_subscriber target observer t o
        (add_subscribe_target observer target (unsubscribe_observer observer a))
      ∙ (rw (subscribers-unsubscribe observer t o a linked) (ground arith)),
  elim (Bool-cases (o == observer)) [
    | inl e ↦ rw e refl
    | inr e ↦ rw e (targets-unsubscribe observer o a ∙ rw e refl)
  ],
)

pub unsubscribe_observer-IsLinked :
    (observer : ℕ) (a : Activity) → IsLinked a → IsLinked (unsubscribe_observer observer a)
unsubscribe_observer-IsLinked observer a linked o t =
    rw (subscribers-unsubscribe observer t o a linked, targets-unsubscribe observer o a)
      (elim (Bool-cases (o == observer)) [
        | inl e ↦ rw e ((λ h. cc), (λ h. cc))
        | inr e ↦ rw e (linked o t)
      ])

pub subscribe_observer_to_target-IsLinked :
    (observer target : ℕ) (a : Activity)
    → IsLinked a
    → IsLinked (subscribe_observer_to_target observer target a)
subscribe_observer_to_target-IsLinked observer target a linked o t =
    let (l, r) = subscribe_observer_to_target_lem observer target a linked t o in
    rw (l, r)
      (elim (Bool-cases (o == observer)) [
        | inl e ↦ rw e (
          (λ h. rw ((==_iff t target).0 h) refl),
          (λ h. (==_iff t target).1 (some_same target t h)),
        )
        | inr e ↦ rw e (linked o t)
      ])
  where
    some_same : (x y : ℕ) → some x ≡ some y → y ≡ x
    some_same x y h = cc
