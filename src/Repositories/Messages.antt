-- ===== src/Repositories/Messages.antt =====
-- app/providers/repositories/message/index.js and message_reaction/index.js, over their collections.
use Prim.Native.String.{String}
use text.Mathlib.Text.{◌==◌ as str_eq}
use sama_server.Prelude.{
  ℕ, ◌==◌, Bool, true, false, not, ◌&&◌, List, ◌∷◌, Option, none, some, if◌then◌else◌, includes,
  ltb,
}
use sama_server.Mongo.{Collection}
use sama_server.Store.{Message, Reaction}

-- { _id: { $in }, cid, organization_id }
abbrev pub in_scope : List ℕ → ℕ → ℕ → Message → Bool
in_scope ids cid org m = includes m.id ids && (m.cid == cid && m.organization_id == org)

abbrev pub by_author : Option ℕ → Message → Bool
by_author none m = true
by_author (some uid) m = m.from == uid

-- { _id, deleted_for: { $nin: [userId] }, cid }
abbrev pub is_visible : ℕ → ℕ → ℕ → Message → Bool
is_visible cid uid mid m = m.id == mid && (not (includes uid m.deleted_for) && m.cid == cid)

-- $addToSet: { deleted_for: userId }
abbrev pub hide_for : ℕ → Message → Message
hide_for uid m = record m {
  deleted_for = if includes uid m.deleted_for then m.deleted_for else uid ∷ m.deleted_for;
}

module _ {M : Type 0} (c : Collection Message M) where
  -- `findById` and `findAllByIds` of the base repository
  unfoldable pub find_by_id : ℕ → M → Option Message
  find_by_id mid s = c.find_one (λ m. m.id == mid) s

  unfoldable pub find_all_by_ids : List ℕ → ℕ → M → List Message
  find_all_by_ids ids limit s = c.find (λ m. includes m.id ids) limit s

  unfoldable pub find_message_by_id : ℕ → ℕ → ℕ → M → Option Message
  find_message_by_id cid uid mid s = c.find_one (is_visible cid uid mid) s

  unfoldable pub update_body : ℕ → Option String → ℕ → M → M
  update_body mid body now =
      c.update_one (λ m. m.id == mid) (λ m. record m { body = body; updated_at = now })

  unfoldable pub delete_by_ids_in_conversation : List ℕ → ℕ → ℕ → Option ℕ → M → M
  delete_by_ids_in_conversation ids cid org author s =
      (c.delete_many (λ m. in_scope ids cid org m && by_author author m) s).0

  unfoldable pub update_delete_for_user : List ℕ → ℕ → ℕ → ℕ → M → M
  update_delete_for_user ids uid cid org = c.update_many (in_scope ids cid org) (hide_for uid)

abbrev pub is_reaction : ℕ → ℕ → String → Reaction → Bool
is_reaction mid uid name r = r.mid == mid && (r.user_id == uid && str_eq r.reaction name)

module _ {R : Type 0} (c : Collection Reaction R) where
  -- `upsert`: the flag says that a reaction was added
  unfoldable pub upsert_reaction : ℕ → ℕ → String → R → Bool × R
  upsert_reaction mid uid name s = elim (c.find_one (is_reaction mid uid name) s) [
    | none ↦ (true, c.insert_one (record { mid = mid; user_id = uid; reaction = name }) s)
    | some r ↦ (false, s)
  ]

  unfoldable pub remove_reaction : ℕ → ℕ → String → R → Bool × R
  remove_reaction mid uid name s =
      let r = c.delete_many (is_reaction mid uid name) s in (ltb 0 r.1, r.0)
