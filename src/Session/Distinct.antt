-- ===== src/Session/Distinct.antt =====
-- Connections of a user with no device and no socket twice, and the entries of a Map.
use sama_server.Prelude.{
  ℕ, ◌+◌, ◌==◌, ◌≡◌, ◌≤◌, refl, sym, subst, Bool, true, false, not, ◌&&◌, ◌||◌, List, [], ◌∷◌, ◌++◌,
  none, some, if◌then◌else◌, find, count, count-append, arith, Bool-cases, inl, inr, ==_iff,
}
use sama_server.Prelude.Text.{Text, same_text, same_text_iff}
use sama_server.Session.{
  Connection, ActiveSessions, get_user_devices, map_get, map_set, map_delete, has_socket,
  has_device, other_connections,
}

-- In the connections of each user no device and no socket appears twice.
abbrev pub IsDistinct : List Connection → Type 0
IsDistinct cs = ((d : Text) → count (has_device d) cs ≤ 1) × ((k : ℕ) → count (has_socket k) cs ≤ 1)

abbrev pub IsConnected : ActiveSessions → Type 0
IsConnected a = (uid : Text) → IsDistinct (get_user_devices uid a)

-- Where no device and no socket is met twice, the others are those with another socket and device.
other_connections_lem :
    (socket : ℕ) (device : Text) (p : Connection → Bool) (ms md : Bool) (cs : List Connection)
    → (if ms then 1 else 0) + count (has_socket socket) cs ≤ 1
    → (if md then 1 else 0) + count (has_device device) cs ≤ 1
    → count p (other_connections socket device ms md cs)
      ≡ count (λ c. p c && not (has_socket socket c || has_device device c)) cs
other_connections_lem socket device p ms md [] hs hd = refl
other_connections_lem socket device p ms md (c ∷ cs) hs hd =
    let ih =
      other_connections_lem socket device p (ms || has_socket socket c) (md || has_device device c)
        cs in
    ground (arith, ih)

pub map_get-map_delete :
    {V : Type 0} (k j : ℕ) (m : List (ℕ × V))
    → map_get j (map_delete k m) ≡ (if j == k then none else map_get j m)
map_get-map_delete k j [] = ground arith
map_get-map_delete k j ((i, v) ∷ m) = ground (arith, map_get-map_delete k j m)

pub map_get-map_set :
    {V : Type 0} (k j : ℕ) (v : V) (m : List (ℕ × V))
    → map_get j (map_set k v m) ≡ (if j == k then some v else map_get j m)
map_get-map_set k j v [] = ground arith
map_get-map_set k j v ((i, w) ∷ m) = ground (arith, map_get-map_set k j v m)

pub count-kept_le :
    (p q : Connection → Bool) (cs : List Connection) → count (λ c. p c && not (q c)) cs ≤ count p cs
count-kept_le p q [] = omega arith
count-kept_le p q (c ∷ cs) = ground (arith, count-kept_le p q cs)

pub count-dropped :
    (p q : Connection → Bool) (cs : List Connection)
    → ((c : Connection) → p c ≡ true → q c ≡ true)
    → count (λ c. p c && not (q c)) cs ≡ 0
count-dropped p q [] h = refl
count-dropped p q (c ∷ cs) h = ground (arith, count-dropped p q cs h, h c)

pub count-other_connections :
    (socket : ℕ) (device : Text) (p : Connection → Bool) (cs : List Connection)
    → IsDistinct cs
    → count p (other_connections socket device false false cs)
      ≡ count (λ c. p c && not (has_socket socket c || has_device device c)) cs
count-other_connections socket device p cs (hd, hk) =
    other_connections_lem socket device p false false cs (omega (arith, hk socket))
      (omega (arith, hd device))

-- The connections of a user that the new one replaces keep no device and no socket twice.
pub replaced-IsDistinct :
    (socket : ℕ) (org device : Text) (cs : List Connection)
    → IsDistinct cs
    → IsDistinct (
        other_connections socket device false false cs
        ++ record { socket = socket; device_id = device; organization_id = org } ∷ [])
replaced-IsDistinct socket org device cs (hd, hk) =
    let q : Connection → Bool = λ c. has_socket socket c || has_device device c in
    let lem = λ (p : Connection → Bool). count-other_connections socket device p cs (hd, hk) in
    let split = λ (p : Connection → Bool).
      count-append p (other_connections socket device false false cs)
        (record { socket = socket; device_id = device; organization_id = org } ∷ []) in
    (
      λ d. elim (Bool-cases (same_text device d)) [
        | inl e ↦
            rw (split (has_device d), lem (has_device d))
              (let same = (same_text_iff device d).0 e in
                let none_left = count-dropped (has_device d) q cs (λ c m.
                  subst (λ x. (has_socket socket c || has_device x c) ≡ true) (sym same)
                    (ground (arith, m))) in
                rw (e, none_left) omega arith)
        | inr e ↦
            rw (split (has_device d), lem (has_device d), e)
              (let le = count-kept_le (has_device d) q cs in omega (arith, le, hd d))
      ],
      λ k. elim (Bool-cases (socket == k)) [
        | inl e ↦
            rw (split (has_socket k), lem (has_socket k))
              (let same = (==_iff socket k).0 e in
                let none_left = count-dropped (has_socket k) q cs (λ c m.
                  subst (λ x. (has_socket x c || has_device device c) ≡ true) (sym same)
                    (ground (arith, m))) in
                rw (e, none_left) omega arith)
        | inr e ↦
            rw (split (has_socket k), lem (has_socket k), e)
              (let le = count-kept_le (has_socket k) q cs in omega (arith, le, hk k))
      ],
    )

pub count-find_none :
    (p : Connection → Bool) (xs : List Connection) → count p xs ≡ 0 → find p xs ≡ none
count-find_none p [] h = refl
count-find_none p (x ∷ xs) h = elim (Bool-cases (p x)) [
  | inl e ↦ absurd (ground arith)
  | inr e ↦ rw e (count-find_none p xs (ground arith))
]

pub find-append_last :
    (p : Connection → Bool) (xs : List Connection) (c : Connection)
    → count p xs ≡ 0
    → find p (xs ++ c ∷ []) ≡ (if p c then some c else none)
find-append_last p [] c h = refl
find-append_last p (x ∷ xs) c h = elim (Bool-cases (p x)) [
  | inl e ↦ absurd (ground arith)
  | inr e ↦ rw e (find-append_last p xs c (ground arith))
]
