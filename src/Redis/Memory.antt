-- ===== src/Redis/Memory.antt =====
-- A Redis with the members of its sets and the fields of its hashes in two lists: the laws can hold.
use sama_server.Prelude.{
  ◌≤◌, ◌≡◌, refl, subst, sym, true, not, ◌&&◌, ◌||◌, List, [], ◌∷◌, Option, none, if◌then◌else◌,
  count, filter, any-count, arith, Bool-cases, inl, inr,
}
use sama_server.Prelude.Text.{Text, same_text, same_text_iff, includes_text}
use sama_server.Redis.{Redis, assigned}

-- A set has no member twice.
abbrev pub IsRepeatFree : List Text → Type 0
IsRepeatFree xs = (x : Text) → count (λ y. same_text y x) xs ≤ 1

pub record Stored : Type 0 where
  -- the members of the set at a key
  pub sets : Text → List Text
  -- the value of a field of the hash at a key
  pub hashes : Text → Text → Option Text
  pub unique : (k : Text) → IsRepeatFree (sets k)

abbrev pub empty_redis : Stored
empty_redis = record { sets = λ _. []; hashes = λ _ _. none; unique = λ k x. omega arith }

abbrev pub insert : Text → List Text → List Text
insert y xs = if includes_text y xs then xs else y ∷ xs

abbrev pub remove : Text → List Text → List Text
remove y xs = filter (λ x. not (same_text x y)) xs

includes-insert :
    (x y : Text) (xs : List Text)
    → includes_text x (insert y xs) ≡ (same_text x y || includes_text x xs)
includes-insert x y xs = elim (Bool-cases (includes_text y xs)) [
  | inr out ↦ rw out (ground (arith, same_text_iff y x, same_text_iff x y))
  | inl there ↦ rw there (elim (Bool-cases (same_text x y)) [
    | inl e ↦ rw e (subst (λ z. includes_text z xs ≡ true) (sym ((same_text_iff x y).0 e)) there)
    | inr e ↦ rw e refl
  ])
]

includes-remove :
    (x y : Text) (xs : List Text)
    → includes_text x (remove y xs) ≡ (not (same_text x y) && includes_text x xs)
includes-remove x y [] = ground arith
includes-remove x y (z ∷ xs) =
    ground (arith, includes-remove x y xs, same_text_iff z y, same_text_iff z x, same_text_iff x y)

count-remove-le :
    (x y : Text) (xs : List Text)
    → count (λ z. same_text z x) (remove y xs) ≤ count (λ z. same_text z x) xs
count-remove-le x y [] = omega arith
count-remove-le x y (z ∷ xs) = ground (arith, count-remove-le x y xs)

insert-IsRepeatFree : (y : Text) (xs : List Text) → IsRepeatFree xs → IsRepeatFree (insert y xs)
insert-IsRepeatFree y xs u x = elim (Bool-cases (includes_text y xs)) [
  | inl there ↦ rw there (u x)
  | inr out ↦ rw out (ground (arith, u x, any-count (λ z. same_text z y) xs, same_text_iff y x))
]

remove-IsRepeatFree : (y : Text) (xs : List Text) → IsRepeatFree xs → IsRepeatFree (remove y xs)
remove-IsRepeatFree y xs u x = omega (arith, count-remove-le x y xs, u x)

abbrev pub insert_at : Text → Text → Stored → Text → List Text
insert_at j y s k = if same_text k j then insert y (s.sets k) else s.sets k

abbrev pub remove_at : Text → Text → Stored → Text → List Text
remove_at j y s k = if same_text k j then remove y (s.sets k) else s.sets k

abbrev pub without_key : Text → Stored → Text → List Text
without_key j s k = if same_text k j then [] else s.sets k

pub insert_at-IsRepeatFree : (j y : Text) (s : Stored) (k : Text) → IsRepeatFree (insert_at j y s k)
insert_at-IsRepeatFree j y s k = elim (Bool-cases (same_text k j)) [
  | inl e ↦ rw e (insert-IsRepeatFree y (s.sets k) (s.unique k))
  | inr e ↦ rw e (s.unique k)
]

pub remove_at-IsRepeatFree : (j y : Text) (s : Stored) (k : Text) → IsRepeatFree (remove_at j y s k)
remove_at-IsRepeatFree j y s k = elim (Bool-cases (same_text k j)) [
  | inl e ↦ rw e (remove-IsRepeatFree y (s.sets k) (s.unique k))
  | inr e ↦ rw e (s.unique k)
]

pub without_key-IsRepeatFree : (j : Text) (s : Stored) (k : Text) → IsRepeatFree (without_key j s k)
without_key-IsRepeatFree j s k = elim (Bool-cases (same_text k j)) [
  | inl e ↦ rw e (λ x. omega arith)
  | inr e ↦ rw e (s.unique k)
]

pub s_add_lem :
    (k x j y : Text) (s : Stored)
    → includes_text x (insert_at j y s k)
      ≡ ((same_text k j && same_text x y) || includes_text x (s.sets k))
s_add_lem k x j y s = elim (Bool-cases (same_text k j)) [
  | inl e ↦ rw e (includes-insert x y (s.sets k))
  | inr e ↦ rw e refl
]

pub s_rem_lem :
    (k x j y : Text) (s : Stored)
    → includes_text x (remove_at j y s k)
      ≡ (not (same_text k j && same_text x y) && includes_text x (s.sets k))
s_rem_lem k x j y s = elim (Bool-cases (same_text k j)) [
  | inl e ↦ rw e (includes-remove x y (s.sets k))
  | inr e ↦ rw e refl
]

pub del_lem :
    (k x j : Text) (s : Stored)
    → includes_text x (without_key j s k) ≡ (not (same_text k j) && includes_text x (s.sets k))
del_lem k x j s = elim (Bool-cases (same_text k j)) [ inl e ↦ rw e refl | inr e ↦ rw e refl ]

abbrev pub redis : Redis Stored
redis = record {
  s_members = λ k s. s.sets k;
  s_add = λ j y s. record {
    sets = insert_at j y s;
    hashes = s.hashes;
    unique = insert_at-IsRepeatFree j y s;
  };
  s_rem = λ j y s. record {
    sets = remove_at j y s;
    hashes = s.hashes;
    unique = remove_at-IsRepeatFree j y s;
  };
  h_get_all = λ k s. s.hashes k;
  h_set = λ j pairs s. record s {
    hashes = λ k f. if same_text k j then assigned f pairs (s.hashes k f) else s.hashes k f;
  };
  h_del = λ j fields s. record s {
    hashes = λ k f. if same_text k j && includes_text f fields then none else s.hashes k f;
  };
  del = λ j s. record {
    sets = without_key j s;
    hashes = λ k f. if same_text k j then none else s.hashes k f;
    unique = without_key-IsRepeatFree j s;
  };
  count-s_members = λ k x s. s.unique k x;
  s_members-s_add = s_add_lem;
  s_members-s_rem = s_rem_lem;
  s_members-del = del_lem;
  s_members-h_set = λ k j pairs s. refl;
  s_members-h_del = λ k j fields s. refl;
  h_get_all-h_set = λ k f j pairs s. refl;
  h_get_all-h_del = λ k f j fields s. refl;
  h_get_all-del = λ k f j s. refl;
  h_get_all-s_add = λ k f j y s. refl;
  h_get_all-s_rem = λ k f j y s. refl;
}
