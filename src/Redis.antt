-- ===== src/Redis.antt =====
-- The Redis client of app/lib/redis.js as a parameter: the commands on sets and hashes that the
-- services send, and what Redis documents of them. Reads are of the state before the command.
pub mod Memory
pub mod Scan
use sama_server.Prelude.{
  ℕ, ◌≤◌, ◌≡◌, Bool, true, false, not, ◌&&◌, ◌||◌, List, [], ◌∷◌, Option, none, some, if◌then◌else◌,
  count,
}
use sama_server.Prelude.Text.{Text, same_text, includes_text}

-- `hSet` of several fields: the last value of a field counts.
abbrev pub assigned : Text → List (Text × Text) → Option Text → Option Text
assigned f [] old = old
assigned f ((g, v) ∷ pairs) old = assigned f pairs (if same_text f g then some v else old)

pub record Redis (S : Type 0) : Type 0 where
  -- SMEMBERS, SADD, SREM
  pub s_members : Text → S → List Text
  pub s_add : Text → Text → S → S
  pub s_rem : Text → Text → S → S
  -- HGETALL as the object of the fields, HSET, HDEL
  pub h_get_all : Text → S → Text → Option Text
  pub h_set : Text → List (Text × Text) → S → S
  pub h_del : Text → List Text → S → S
  -- DEL of a set or a hash
  pub del : Text → S → S
  -- A set has no member twice.
  pub count-s_members : (k x : Text) (s : S) → count (λ y. same_text y x) (s_members k s) ≤ 1
  pub s_members-s_add :
      (k x j y : Text) (s : S)
      → includes_text x (s_members k (s_add j y s))
        ≡ ((same_text k j && same_text x y) || includes_text x (s_members k s))
  pub s_members-s_rem :
      (k x j y : Text) (s : S)
      → includes_text x (s_members k (s_rem j y s))
        ≡ (not (same_text k j && same_text x y) && includes_text x (s_members k s))
  pub s_members-del :
      (k x j : Text) (s : S)
      → includes_text x (s_members k (del j s))
        ≡ (not (same_text k j) && includes_text x (s_members k s))
  pub s_members-h_set :
      (k j : Text) (pairs : List (Text × Text)) (s : S)
      → s_members k (h_set j pairs s) ≡ s_members k s
  pub s_members-h_del :
      (k j : Text) (fields : List Text) (s : S) → s_members k (h_del j fields s) ≡ s_members k s
  pub h_get_all-h_set :
      (k f j : Text) (pairs : List (Text × Text)) (s : S)
      → h_get_all k (h_set j pairs s) f
        ≡ (if same_text k j then assigned f pairs (h_get_all k s f) else h_get_all k s f)
  pub h_get_all-h_del :
      (k f j : Text) (fields : List Text) (s : S)
      → h_get_all k (h_del j fields s) f
        ≡ (if same_text k j && includes_text f fields then none else h_get_all k s f)
  pub h_get_all-del :
      (k f j : Text) (s : S)
      → h_get_all k (del j s) f ≡ (if same_text k j then none else h_get_all k s f)
  pub h_get_all-s_add : (k f j y : Text) (s : S) → h_get_all k (s_add j y s) f ≡ h_get_all k s f
  pub h_get_all-s_rem : (k f j y : Text) (s : S) → h_get_all k (s_rem j y s) f ≡ h_get_all k s f
