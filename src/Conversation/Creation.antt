-- ===== src/Conversation/Creation.antt =====
-- `create` of the conversation service, and the state of a conversation that it leaves.
pub mod Effect
use Prim.Native.String.{String}
use sama_server.Prelude.{
  ℕ, Bool, true, false, List, [], ◌∷◌, Option, none, some, if◌then◌else◌, is_empty,
}
use sama_server.Errors.{Action, ◌>>=◌, ◌>>◌, bind, return, require_some, ok, type_error}
use sama_server.Store.{User, Kind, Conversation, unset, Driver, Store, Config}
use sama_server.Conversation.{add_participants}

-- The fields of a request to create a conversation, but its participants.
pub record ConversationParams : Type 0 where
  pub kind : Kind
  pub name : Option String
  pub description : Option String
  pub image_object : Option String
  pub is_encrypted : Option Bool
  pub opponent_id : Option ℕ

abbrev pub document : User → ConversationParams → ℕ → ℕ → Conversation
document user params new_id now = record {
  id = new_id;
  organization_id = user.organization_id;
  kind = params.kind;
  name = params.name;
  description = params.description;
  image_object = params.image_object;
  is_encrypted = params.is_encrypted;
  owner_id = user.id;
  opponent_id = params.opponent_id;
  subscribers_count = unset;
  updated_at = now;
  participants = none;
}

module _ (db : Driver) where
  open db use {conversations}

  pub insert_conversation : User → ConversationParams → ℕ → Action (Store db) Conversation
  insert_conversation user params now s =
      let conv = document user params (conversations.new_id s.conversations) now in
      (ok conv, record s { conversations = conversations.insert_one conv s.conversations })

  pub fill : Config → Conversation → List ℕ → Action (Store db) Conversation
  fill cfg conv [] = return conv
  fill cfg conv (x ∷ xs) = do (_, conv') ← add_participants db cfg conv (x ∷ xs) true; return conv'

  -- `now` is the time of the write. The properties of a null user are a TypeError.
  unfoldable pub create :
      Config → Option User → ConversationParams → ℕ → List ℕ → Action (Store db) Conversation
  unfolding insert_conversation fill
  create cfg user params now uids = do
    owner ← require_some user type_error
    conv ← insert_conversation owner params now
    fill cfg conv uids
