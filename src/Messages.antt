-- ===== src/Messages.antt =====
-- app/providers/services/message/index.js: access to a message, deletion, hiding and reactions.
pub mod Scope
pub mod Reactions
use Prim.Native.String.{String}
use text.Mathlib.Text.{◌==◌ as str_eq}
use sama_server.Prelude.{
  ℕ, ◌==◌, Bool, true, false, not, ◌&&◌, ◌||◌, List, [], ◌∷◌, Option, none, some, if◌then◌else◌,
  includes, length, is_empty, any,
}
use sama_server.Errors.{
  Action, ◌>>=◌, ◌>>◌, bind, return, read, write, require, throw, ok, err, forbidden,
}
use sama_server.Store.{Message, Driver, Store}
use sama_server.Repositories.Messages.{
  find_by_id, find_all_by_ids, delete_by_ids_in_conversation, update_delete_for_user,
  upsert_reaction, remove_reaction,
}

pub record MessageAccess : Type 0 where
  pub message : Option Message
  pub as_owner : Bool
  pub self_deleted : Bool

-- `same` is what `Array.prototype.includes` says of two native ids. It compares objects by identity,
-- and the driver decodes an id of a document to an object of its own.
unfoldable pub access_to : (ℕ → ℕ → Bool) → ℕ → Option Message → MessageAccess
access_to same uid none = record { message = none; as_owner = false; self_deleted = false }
access_to same uid (some m) =
    if any (λ x. same x uid) m.deleted_for
    then record { message = none; as_owner = false; self_deleted = true }
    else record { message = some m; as_owner = m.from == uid; self_deleted = false }

-- The test of one message in `validateMessagesForDelete`.
abbrev pub may_delete : ℕ → ℕ → ℕ → Bool → Message → Bool
may_delete cid org uid require_authorship m =
    m.cid == cid && (m.organization_id == org && (not require_authorship || m.from == uid))

module _ (db : Driver) where
  unfoldable pub has_access_to_message : (ℕ → ℕ → Bool) → ℕ → ℕ → Store db → MessageAccess
  unfolding access_to
  has_access_to_message same mid uid s = access_to same uid (find_by_id db.messages mid s.messages)

  unfoldable pub find_messages_by_ids : List ℕ → Store db → List Message
  find_messages_by_ids ids s =
      if is_empty ids then [] else find_all_by_ids db.messages ids (length ids) s.messages

  unfoldable pub validate_messages_for_delete :
      List Message → ℕ → ℕ → ℕ → Bool → Action (Store db) (Unit {0})
  validate_messages_for_delete [] cid org uid require_authorship = return tt
  validate_messages_for_delete (m ∷ ms) cid org uid require_authorship =
      let rest = validate_messages_for_delete ms cid org uid require_authorship in
      if may_delete cid org uid require_authorship m then rest else throw forbidden

  unfoldable pub delete_messages_for_everyone : List ℕ → ℕ → ℕ → Option ℕ → Store db → Store db
  delete_messages_for_everyone ids cid org author s = record s {
    messages = delete_by_ids_in_conversation db.messages ids cid org author s.messages;
  }

  unfoldable pub hide_messages_for_user : List ℕ → ℕ → ℕ → ℕ → Store db → Store db
  hide_messages_for_user ids uid cid org s = record s {
    messages = update_delete_for_user db.messages ids uid cid org s.messages;
  }

  -- An absent or empty name adds or removes nothing.
  add_reaction : ℕ → ℕ → Option String → Action (Store db) Bool
  add_reaction mid uid none s = (ok false, s)
  add_reaction mid uid (some name) s =
      let r = upsert_reaction db.reactions mid uid name s.reactions in
      if str_eq name "" then (ok false, s) else (ok r.0, record s { reactions = r.1 })

  drop_reaction : ℕ → ℕ → Option String → Action (Store db) Bool
  drop_reaction mid uid none s = (ok false, s)
  drop_reaction mid uid (some name) s =
      let r = remove_reaction db.reactions mid uid name s.reactions in
      if str_eq name "" then (ok false, s) else (ok r.0, record s { reactions = r.1 })

  -- Whether a reaction was added, and whether one was removed.
  unfoldable pub update_reactions :
      ℕ → ℕ → Option String → Option String → Action (Store db) (Bool × Bool)
  unfolding add_reaction drop_reaction
  update_reactions mid uid add remove = do
    added ← add_reaction mid uid add
    removed ← drop_reaction mid uid remove
    return (added, removed)
