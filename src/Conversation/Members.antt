-- ===== src/Conversation/Members.antt =====
-- What `addParticipants` does to the participants and the counter of a conversation.
use sama_server.Prelude.{ℕ, ◌≡◌, ◌≢◌, ◌≤◌, ◌<◌}
use sama_server.Prelude.Int.{pos}
use sama_server.Store.{channel, private, Conversation, Driver, Store, int}
use sama_server.Repositories.Participants.{in_conversation, is_member}
use sama_server.Conversation.Stored.{IsStored}

module _ (db : Driver) where
  open db use {participants, conversations}

  abbrev pub members : ℕ → Store db → ℕ
  members cid s = participants.count (in_conversation cid) s.participants

  abbrev pub membership : ℕ → ℕ → Store db → ℕ
  membership cid uid s = participants.count (is_member cid uid) s.participants

  -- What every request keeps true of a conversation: its document agrees with the object, nobody is
  -- a participant twice, a channel's counter is the number of its participants, and the owner of a
  -- group or channel takes part in it.
  pub record IsSound (conv : Conversation) (s : Store db) : Type 0 where
    pub stored : IsStored conversations conv s.conversations
    pub unique : (uid : ℕ) → membership conv.id uid s ≤ 1
    pub counted : conv.kind ≡ channel → conv.subscribers_count ≡ int (pos (members conv.id s))
    pub owned : conv.kind ≢ private → 0 < membership conv.id conv.owner_id s
