-- ===== src/Operations/Subscription.antt =====
-- app/providers/operations/conversation/subscribe_unsubscribe/index.js
pub mod Effect
use sama_server.Prelude.{ℕ, Bool, true, false, List, [], ◌∷◌, if◌then◌else◌}
use sama_server.Errors.{Action, ◌>>=◌, ◌>>◌, bind, return, read, require, require_some, bad_request}
use sama_server.Store.{Conversation, Driver, Store, Config}
use sama_server.Repositories.Conversations.{find_by_id_with_org_scope, is_channel}
use sama_server.Conversation.{add_participants, remove_participants}

pub data RequestType : Type 0 where
  subscribing unsubscribing : RequestType

module _ (db : Driver) where
  pub retrieve_conversation : ℕ → ℕ → Action (Store db) Conversation
  retrieve_conversation org cid = do
    found ← read (λ s. find_by_id_with_org_scope db.conversations org cid s.conversations)
    conv ← require_some found bad_request
    require (is_channel conv.kind) bad_request
    return conv

  pub subscribe : Config → Conversation → ℕ → Action (Store db) (Unit {0})
  subscribe cfg conv uid = do _ ← add_participants db cfg conv (uid ∷ []) false; return tt

  pub unsubscribe : Conversation → ℕ → Action (Store db) (Unit {0})
  unsubscribe conv uid = do _ ← remove_participants db conv (uid ∷ []); return tt

  abbrev dispatch : RequestType → Config → Conversation → ℕ → Action (Store db) (Unit {0})
  dispatch subscribing cfg conv uid = subscribe cfg conv uid
  dispatch unsubscribing cfg conv uid = unsubscribe conv uid

  unfoldable pub subscribe_unsubscribe :
      Config → ℕ → ℕ → RequestType → ℕ → Action (Store db) (Unit {0})
  unfolding retrieve_conversation subscribe unsubscribe
  subscribe_unsubscribe cfg org uid type cid = do
    conv ← retrieve_conversation org cid
    dispatch type cfg conv uid
