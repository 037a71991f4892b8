-- ===== src/Conversation/Roles.antt =====
-- A change of the roles of participants keeps their number and a conversation sound.
use sama_server.Prelude.{ℕ, ◌≡◌, refl, ◌∙◌, Bool, true, false, ◌&&◌, List, if◌then◌else◌, includes}
use sama_server.Store.{Role, Conversation, Participant, Driver, Store}
use sama_server.Mongo.Counting.{count_ext}
use sama_server.Repositories.Participants.{in_conversation, is_member, set_role}
use sama_server.Conversation.Members.{IsSound}

if_role :
    (role : Role) (p : Participant → Bool)
    → ((d : Participant) → p (record d { role = role }) ≡ p d)
    → (b : Bool) (d : Participant) → p (if b then record d { role = role } else d) ≡ p d
if_role role p same true d = same d
if_role role p same false d = refl

module _ (db : Driver) where
  open db use {participants, conversations}

  pub set_role_count :
      (role : Role) (cid : ℕ) (uids : List ℕ) (t : db.Participants) (p : Participant → Bool)
      → ((d : Participant) → p (record d { role = role }) ≡ p d)
      → participants.count p (set_role participants role cid uids t) ≡ participants.count p t
  unfolding set_role
  set_role_count role cid uids t p same =
      participants.count-update_many p (λ d. in_conversation cid d && includes d.user_id uids)
        (λ d. record d { role = role }) t
      ∙ count_ext participants t
          (λ d. if_role role p same (in_conversation cid d && includes d.user_id uids) d)

  pub set_role-IsSound :
      (role : Role) (cid : ℕ) (uids : List ℕ) (conv : Conversation) (s : Store db)
      → IsSound db conv s
      → IsSound db conv
          (record s { participants = set_role participants role cid uids s.participants })
  set_role-IsSound role cid uids conv s v = record {
    stored = v.stored;
    unique = λ uid.
        rw (set_role_count role cid uids s.participants (is_member conv.id uid) (λ d. refl))
          (v.unique uid);
    counted = λ c.
        rw (set_role_count role cid uids s.participants (in_conversation conv.id) (λ d. refl))
          (v.counted c);
    owned = λ q.
        rw
          (set_role_count role cid uids s.participants (is_member conv.id conv.owner_id)
            (λ d. refl))
          (v.owned q);
  }
