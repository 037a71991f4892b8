-- ===== src/Mongo.antt =====
-- The document database that app/providers/repositories/base.js calls through the MongoDB driver.
-- The driver is not part of the repository: it is a parameter, one `Collection D S` for each
-- collection, with documents in `D` and contents in `S`. The contents are observed only through
-- `count`, the number of documents that a query matches, so no order of documents is assumed.
pub mod Memory
pub mod Counting
use Prim.Native.Nat.{min}
use mathlib.Core.Option
use sama_server.Prelude.{
  ℕ, ◌+◌, ◌≤◌, ◌<◌, ◌≡◌, Bool, true, false, not, ◌&&◌, List, length, Option, none, some,
  if◌then◌else◌, count as count_list,
}

pub record Collection (D S : Type 0) : Type 0 where
  -- countDocuments
  pub count : (D → Bool) → S → ℕ
  -- findOne; find with no limit; find with a limit
  pub find_one : (D → Bool) → S → Option D
  pub find_all : (D → Bool) → S → List D
  pub find : (D → Bool) → ℕ → S → List D
  -- the _id that the next insertion gets, and the insertion of a document
  pub new_id : S → ℕ
  pub insert_one : D → S → S
  -- updateOne with $setOnInsert and upsert; the flag says that upsertedId is set
  pub upsert_one : (D → Bool) → D → S → S × Bool
  pub update_one : (D → Bool) → (D → D) → S → S
  pub update_many : (D → Bool) → (D → D) → S → S
  -- findOneAndUpdate that returns the document after the update
  pub find_one_and_update : (D → Bool) → (D → D) → S → Option D × S
  -- deleteOne; deleteMany with its deletedCount
  pub delete_one : (D → Bool) → S → S
  pub delete_many : (D → Bool) → S → S × ℕ
  -- What a count is: nothing matches the empty query, and a query splits by any other.
  pub count_false : (s : S) → count (λ _. false) s ≡ 0
  pub count_split :
      (p q : D → Bool) (s : S)
      → count p s ≡ count (λ d. p d && q d) s + count (λ d. p d && not (q d)) s
  pub find_one_none : (q : D → Bool) (s : S) → find_one q s ≡ none → count q s ≡ 0
  pub find_one_some :
      (q : D → Bool) (s : S) (d : D)
      → find_one q s ≡ some d
      → (q d ≡ true) × ((p : D → Bool) → p d ≡ true → 0 < count p s)
  pub count-find_all :
      (p q : D → Bool) (s : S) → count_list p (find_all q s) ≡ count (λ d. p d && q d) s
  pub count-find-le :
      (p q : D → Bool) (n : ℕ) (s : S) → count_list p (find q n s) ≤ count (λ d. p d && q d) s
  pub length-find : (q : D → Bool) (n : ℕ) (s : S) → 0 < n → length (find q n s) ≡ min n (count q s)
  pub count-find :
      (p q : D → Bool) (n : ℕ) (s : S)
      → count q s ≤ n
      → count_list p (find q n s) ≡ count (λ d. p d && q d) s
  pub count-insert_one :
      (p : D → Bool) (d : D) (s : S) → count p (insert_one d s) ≡ (if p d then 1 else 0) + count p s
  pub upsert_one_old :
      (q : D → Bool) (d : D) (s : S) → 0 < count q s → upsert_one q d s ≡ (s, false)
  pub upsert_one_new :
      (q : D → Bool) (d : D) (s : S)
      → count q s ≡ 0
      → ((upsert_one q d s).1 ≡ true)
        × ((p : D → Bool) → count p (upsert_one q d s).0 ≡ (if p d then 1 else 0) + count p s)
  pub count-update_one :
      (p q : D → Bool) (f : D → D) (s : S)
      → count q s ≤ 1
      → count p (update_one q f s) ≡ count (λ d. p (if q d then f d else d)) s
  pub count-update_many :
      (p q : D → Bool) (f : D → D) (s : S)
      → count p (update_many q f s) ≡ count (λ d. p (if q d then f d else d)) s
  pub find_one_and_update_lem :
      (q : D → Bool) (f : D → D) (s : S)
      → count q s ≤ 1
      → find_one_and_update q f s ≡ (Option.map f (find_one q s), update_one q f s)
  pub count-delete_one :
      (p q : D → Bool) (s : S)
      → count q s ≤ 1
      → count p (delete_one q s) ≡ count (λ d. p d && not (q d)) s
  pub count-delete_many :
      (p q : D → Bool) (s : S) → count p (delete_many q s).0 ≡ count (λ d. p d && not (q d)) s
  pub deleted_count : (q : D → Bool) (s : S) → (delete_many q s).1 ≡ count q s
