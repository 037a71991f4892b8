-- ===== src/Repositories/Conversations.antt =====
-- app/providers/repositories/conversation/index.js, over its collection.
use Prim.Native.String.{String}
use sama_server.Prelude.{
  ℕ, ◌==◌, ◌≡◌, arith, Bool, true, false, not, ◌&&◌, ◌||◌, List, Option, none, some, if◌then◌else◌,
  includes,
}
use sama_server.Mongo.{Collection}
use sama_server.Store.{Kind, private, channel, IdChanges, Conversation, Count}
use sama_server.Repositories.Participants.{find_all_limit}

abbrev pub has_id : ℕ → Conversation → Bool
has_id cid d = d.id == cid

abbrev pub is_private : Kind → Bool
is_private private = true
is_private _ = false

abbrev pub is_channel : Kind → Bool
is_channel channel = true
is_channel _ = false

pub is_private-eq : (k : Kind) → is_private k ≡ true → k ≡ private
is_private-eq k h = ground arith

pub is_channel-eq : (k : Kind) → is_channel k ≡ true → k ≡ channel
is_channel-eq k h = ground arith

abbrev pub is_some_eq : Option ℕ → ℕ → Bool
is_some_eq none x = false
is_some_eq (some y) x = y == x

abbrev pub exists {ℓ} : {A : Type ℓ} → Option A → Bool
exists none = false
exists (some a) = true

-- the truth value of an optional flag
abbrev pub flag : Option Bool → Bool
flag none = false
flag (some b) = b

-- { owner_id, opponent_id, type: "u", is_encrypted: { $exists } }, either way round
abbrev pub is_private_pair : ℕ → ℕ → Option Bool → Conversation → Bool
is_private_pair owner opponent encrypted d =
    is_private d.kind
    && ((d.owner_id == owner && is_some_eq d.opponent_id opponent)
        || (d.owner_id == opponent && is_some_eq d.opponent_id owner))
    && (if flag encrypted then exists d.is_encrypted else not (exists d.is_encrypted))

-- The fields of `update`: one that is absent is not assigned.
pub record UpdateFields : Type 0 where
  pub name : Option String
  pub description : Option String
  pub image_object : Option String
  pub participants : Option IdChanges

abbrev pub assigned_or {ℓ} : {A : Type ℓ} → Option A → Option A → Option A
assigned_or none old = old
assigned_or (some new) old = some new

abbrev pub set_fields : UpdateFields → Conversation → Conversation
set_fields f d = record d {
  name = assigned_or f.name d.name;
  description = assigned_or f.description d.description;
  image_object = assigned_or f.image_object d.image_object;
  participants = assigned_or f.participants d.participants;
}

module _ {C : Type 0} (c : Collection Conversation C) where
  unfoldable pub update : ℕ → UpdateFields → C → Option Conversation × C
  update cid f = c.find_one_and_update (has_id cid) (set_fields f)

  -- `findById` of the base repository
  unfoldable pub find_by_id : ℕ → C → Option Conversation
  find_by_id cid s = c.find_one (has_id cid) s

  unfoldable pub find_by_id_with_org_scope : ℕ → ℕ → C → Option Conversation
  find_by_id_with_org_scope org cid s = c.find_one (λ d. d.organization_id == org && has_id cid d) s

  unfoldable pub find_by_ids_with_org_scope : ℕ → List ℕ → C → List Conversation
  find_by_ids_with_org_scope org cids s =
      c.find (λ d. d.organization_id == org && includes d.id cids) find_all_limit s

  unfoldable pub find_existed_private_conversation : ℕ → ℕ → Option Bool → C → Option Conversation
  find_existed_private_conversation owner opponent encrypted s =
      c.find_one (is_private_pair owner opponent encrypted) s

  unfoldable pub update_owner : ℕ → ℕ → C → C
  update_owner cid new_owner = c.update_one (has_id cid) (λ d. record d { owner_id = new_owner })

  unfoldable pub update_last_activity : ℕ → ℕ → C → C
  update_last_activity cid time = c.update_one (has_id cid) (λ d. record d { updated_at = time })

  unfoldable pub update_subscribers_count : ℕ → Count → C → C
  update_subscribers_count cid n =
      c.update_one (has_id cid) (λ d. record d { subscribers_count = n })

  -- `deleteById` of the base repository
  unfoldable pub delete_by_id : ℕ → C → C
  delete_by_id cid = c.delete_one (has_id cid)
