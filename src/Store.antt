-- ===== src/Store.antt =====
-- The documents of app/models/*.js with the fields that the modelled operations read or write, and
-- the store: one collection for each model. Native ids are numbers; `castObjectId` of the
-- repositories and the `toString` of `isEqualsNativeIds` change their form only, and are not written.
use Prim.Native.String.{String}
use sama_server.Prelude.{ℕ, Bool, Option, List, false, ltb}
use sama_server.Prelude.Int.{ℤ, pos, negsuc, ◌+ℕ◌, ◌-ℕ◌}
use sama_server.Mongo.{Collection}

pub record User : Type 0 where
  pub id : ℕ
  pub organization_id : ℕ
  pub login : String
  pub recent_activity : ℕ

-- A participant's `role`: "owner", "admin" or null.
pub data Role : Type 0 where
  owner admin plain : Role

pub record Participant : Type 0 where
  pub conversation_id : ℕ
  pub user_id : ℕ
  pub organization_id : ℕ
  pub role : Role

-- A conversation's `type`: "u", "g" or "c".
pub data Kind : Type 0 where
  private group channel : Kind

-- A number that may be undefined, and its arithmetic: undefined - n is NaN, and NaN stays.
pub data Count : Type 0 where
  unset nan : Count
  int : ℤ → Count

-- The lists of an edition, of participants or of admins. An absent list is empty.
pub record IdChanges : Type 0 where
  pub add : List ℕ
  pub remove : List ℕ

pub record Conversation : Type 0 where
  pub id : ℕ
  pub organization_id : ℕ
  pub kind : Kind
  pub name : Option String
  pub description : Option String
  pub image_object : Option String
  pub is_encrypted : Option Bool
  pub owner_id : ℕ
  pub opponent_id : Option ℕ
  pub subscribers_count : Count
  pub updated_at : ℕ
  -- what the last edition with changes of participants wrote here; the model does not show it
  pub participants : Option IdChanges

pub record BlockedUser : Type 0 where
  pub organization_id : ℕ
  pub user_id : ℕ
  pub blocked_user_id : ℕ
  pub enabled : Bool

pub record Message : Type 0 where
  pub id : ℕ
  pub organization_id : ℕ
  pub cid : ℕ
  pub from : ℕ
  pub t : ℕ
  pub body : Option String
  pub replied_message_id : Option ℕ
  pub deleted_for : List ℕ
  pub created_at : ℕ
  pub updated_at : ℕ

pub record Reaction : Type 0 where
  pub mid : ℕ
  pub user_id : ℕ
  pub reaction : String

-- The collections of one database.
pub record Driver : Type 1 where
  pub Users : Type 0
  pub Participants : Type 0
  pub Conversations : Type 0
  pub BlockedUsers : Type 0
  pub Messages : Type 0
  pub Reactions : Type 0
  pub users : Collection User Users
  pub participants : Collection Participant Participants
  pub conversations : Collection Conversation Conversations
  pub blocked_users : Collection BlockedUser BlockedUsers
  pub messages : Collection Message Messages
  pub reactions : Collection Reaction Reactions

pub record Store (db : Driver) : Type 0 where
  pub users : db.Users
  pub participants : db.Participants
  pub conversations : db.Conversations
  pub blocked_users : db.BlockedUsers
  pub messages : db.Messages
  pub reactions : db.Reactions

-- `(count ?? 0) + n`
abbrev pub plus : Count → ℕ → Count
plus unset n = int (pos n)
plus nan n = nan
plus (int z) n = int (z +ℕ n)

-- `count - n`
abbrev pub minus : Count → ℕ → Count
minus unset n = nan
minus nan n = nan
minus (int z) n = int (z -ℕ n)

-- `count > n`
abbrev pub exceeds : Count → ℕ → Bool
exceeds unset n = false
exceeds nan n = false
exceeds (int (pos c)) n = ltb n c
exceeds (int (negsuc c)) n = false

-- app/config/default.js, section `conversation`: what the modelled operations ask for
pub record Config : Type 0 where
  pub disable_channels_logic : Bool
  pub max_participants : ℕ
