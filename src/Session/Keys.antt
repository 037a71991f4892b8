-- ===== src/Session/Keys.antt =====
-- The keys and members that the session service builds of ids, and the reading of a member.
use sama_server.Prelude.{
  ℕ, zero, suc, ◌==◌, ◌≡◌, refl, ◌∙◌, false, List, [], ◌∷◌, ◌++◌, if◌then◌else◌, any, ==_refl,
  arith,
}
use sama_server.Prelude.Text.{Text, same_text}

-- ":"
abbrev pub colon : ℕ
colon = 58

-- "sama-node-users", "sama-user-devices" and "sama-user-data"
abbrev pub node_users : Text
node_users =
    115 ∷ 97 ∷ 109 ∷ 97 ∷ 45 ∷ 110 ∷ 111 ∷ 100 ∷ 101 ∷ 45 ∷ 117 ∷ 115 ∷ 101 ∷ 114 ∷ 115 ∷ []

abbrev pub user_devices : Text
user_devices =
    115 ∷ 97 ∷ 109 ∷ 97 ∷ 45 ∷ 117 ∷ 115 ∷ 101 ∷ 114 ∷ 45 ∷ 100 ∷ 101 ∷ 118 ∷ 105 ∷ 99 ∷ 101 ∷ 115
    ∷ []

abbrev pub user_data : Text
user_data = 115 ∷ 97 ∷ 109 ∷ 97 ∷ 45 ∷ 117 ∷ 115 ∷ 101 ∷ 114 ∷ 45 ∷ 100 ∷ 97 ∷ 116 ∷ 97 ∷ []

unfoldable pub nodes_set_cache_key : Text → Text
nodes_set_cache_key endpoint = node_users ++ colon ∷ endpoint

unfoldable pub users_set_cache_key : Text → Text → Text
users_set_cache_key org uid = user_devices ++ colon ∷ (org ++ colon ∷ uid)

unfoldable pub users_hash_cache_key : Text → Text → Text
users_hash_cache_key uid device = user_data ++ colon ∷ (uid ++ colon ∷ device)

unfoldable pub user_connection_member : Text → Text → Text → Text
user_connection_member org uid device = org ++ colon ∷ (uid ++ colon ∷ device)

-- `split(":")`
abbrev pub prepend : ℕ → List Text → List Text
prepend c [] = (c ∷ []) ∷ []
prepend c (w ∷ ws) = (c ∷ w) ∷ ws

unfoldable pub split_colons : Text → List Text
split_colons [] = [] ∷ []
split_colons (c ∷ s) = let rest = split_colons s in if c == colon then [] ∷ rest else prepend c rest

pub record NodeUser : Type 0 where
  pub organization_id : Text
  pub user_id : Text
  pub device_id : Text

-- "undefined", which a missing part prints as
abbrev pub undefined_text : Text
undefined_text = 117 ∷ 110 ∷ 100 ∷ 101 ∷ 102 ∷ 105 ∷ 110 ∷ 101 ∷ 100 ∷ []

abbrev pub part : List Text → ℕ → Text
part [] n = undefined_text
part (w ∷ ws) zero = w
part (w ∷ ws) (suc n) = part ws n

-- `const [organizationId, userId, deviceId] = userConnection.split(":")`: parts beyond the third are
-- dropped.
unfoldable pub parse_member : Text → NodeUser
unfolding split_colons
parse_member member =
    let parts = split_colons member in
    record { organization_id = part parts 0; user_id = part parts 1; device_id = part parts 2 }

-- A text with no ":" in it.
abbrev pub IsPlain : Text → Type 0
IsPlain s = any (λ c. c == colon) s ≡ false

pub split_plain : (s : Text) → IsPlain s → split_colons s ≡ s ∷ []
unfolding split_colons
split_plain [] h = refl
split_plain (c ∷ s) h =
    let first : (c == colon) ≡ false = ground arith in
    let rest : any (λ c. c == colon) s ≡ false = ground arith in rw (first, split_plain s rest) refl

split_first : (s rest : Text) → IsPlain s → split_colons (s ++ colon ∷ rest) ≡ s ∷ split_colons rest
unfolding split_colons
split_first [] rest h = refl
split_first (c ∷ s) rest h =
    let first : (c == colon) ≡ false = ground arith in
    let plain : any (λ c. c == colon) s ≡ false = ground arith in
    rw (first, split_first s rest plain) refl

-- Reading a member gives back the ids that it was built of, when none of them has a ":" in it.
pub parse_member-user_connection_member :
    (org uid device : Text)
    → IsPlain org
    → IsPlain uid
    → IsPlain device
    → parse_member (user_connection_member org uid device)
      ≡ record { organization_id = org; user_id = uid; device_id = device }
unfolding parse_member user_connection_member
parse_member-user_connection_member org uid device o u d =
    rw (split_first org (uid ++ colon ∷ device) o, split_first uid device u, split_plain device d)
      refl

-- A device id with a ":" is cut there, so the member is read as one of another device.
pub parse_member-cut :
    (org uid device rest : Text)
    → IsPlain org
    → IsPlain uid
    → IsPlain device
    → parse_member (user_connection_member org uid (device ++ colon ∷ rest))
      ≡ record { organization_id = org; user_id = uid; device_id = device }
unfolding parse_member user_connection_member
parse_member-cut org uid device rest o u d =
    rw
      (
        split_first org (uid ++ colon ∷ (device ++ colon ∷ rest)) o,
        split_first uid (device ++ colon ∷ rest) u,
        split_first device rest d,
      )
      refl

pub same_text-append : (p s t : Text) → same_text (p ++ s) (p ++ t) ≡ same_text s t
same_text-append [] s t = refl
same_text-append (c ∷ p) s t = rw (==_refl c) (same_text-append p s t)

-- Keys of the three kinds are different, and of one user those of different devices.
pub keys_differ :
    (org uid device endpoint : Text)
    → (same_text (users_set_cache_key org uid) (nodes_set_cache_key endpoint) ≡ false)
      × ((same_text (nodes_set_cache_key endpoint) (users_set_cache_key org uid) ≡ false)
          × ((same_text (users_set_cache_key org uid) (users_hash_cache_key uid device) ≡ false)
              × (same_text (nodes_set_cache_key endpoint) (users_hash_cache_key uid device)
                  ≡ false)))
unfolding nodes_set_cache_key users_set_cache_key users_hash_cache_key
keys_differ org uid device endpoint = (refl, (refl, (refl, refl)))

pub hash_keys :
    (uid d e : Text)
    → same_text (users_hash_cache_key uid d) (users_hash_cache_key uid e) ≡ same_text d e
unfolding users_hash_cache_key
hash_keys uid d e =
    same_text-append user_data (colon ∷ (uid ++ colon ∷ d)) (colon ∷ (uid ++ colon ∷ e))
    ∙ same_text-append (colon ∷ uid) (colon ∷ d) (colon ∷ e)
