-- ===== src/Conversation/Creation/Effect.antt =====
-- The conversation that `create` leaves: sound, with the users of the request as its participants.
use mathlib.Core.Bool.{false≢true}
use sama_server.Prelude.{
  ℕ, ◌+◌, ◌==◌, ◌≡◌, refl, sym, ap, subst, ◌∙◌, true, ◌&&◌, List, [], ◌∷◌, map, some, arith,
  if◌then◌else◌, includes, length, ==_refl,
}
use sama_server.Prelude.Int.{pos}
use sama_server.Mongo.Counting.{count_mono}
use sama_server.Errors.{ok, bind_ok, returned}
use sama_server.Store.{User, Conversation, Driver, Store, Config, int}
use sama_server.Repositories.Participants.{in_conversation, is_member}
use sama_server.Repositories.Participants.Adding.{count-add_conversation, count-add_member}
use sama_server.Repositories.Conversations.{has_id}
use sama_server.Conversation.{participant_of, current_count, add_participants}
use sama_server.Conversation.Stored.{
  IsStored, recounted_lem, recounted_same, recounted-counted, recounted-IsStored,
}
use sama_server.Conversation.Members.{members, membership, IsSound}
use sama_server.Conversation.Adding.{
  participants-AllIn, asked-participants, grown, add_participants-eq-ok,
}
use sama_server.Conversation.Creation.{
  ConversationParams, document, insert_conversation, fill, create,
}

module _ (db : Driver) where
  open db use {participants, conversations}

  -- Nothing in the store refers to the id that the driver gives next.
  abbrev pub IsFresh : Store db → Type 0
  IsFresh s =
      (conversations.count (has_id (conversations.new_id s.conversations)) s.conversations ≡ 0)
      × (members db (conversations.new_id s.conversations) s ≡ 0)

  inserted-IsStored :
      (conv : Conversation) (s : db.Conversations)
      → conversations.count (has_id conv.id) s ≡ 0
      → IsStored conversations conv (conversations.insert_one conv s)
  inserted-IsStored conv s fresh p =
      conversations.count-insert_one (λ d. has_id conv.id d && p d) conv s
      ∙ rw (==_refl conv.id) (
          omega (
            arith,
            count_mono conversations (λ d. has_id conv.id d && p d) (has_id conv.id) s
                (λ d h. ground arith),
          ))

  -- Who is a participant after the first ones are added.
  first_members :
      (conv : Conversation) (uids : List ℕ) (v : ℕ) (s s' : Store db)
      → members db conv.id s ≡ 0
      → s'.participants ≡ (grown db conv uids s).1
      → membership db conv.id v s' ≡ (if includes v uids then 1 else 0)
  first_members conv uids v s s' nobody after =
      let before =
        count_mono participants (is_member conv.id v) (in_conversation conv.id) s.participants
          (λ p h. ground arith) in
      let step : membership db conv.id v s' ≡ (
          if membership db conv.id v s == 0 && includes v uids
          then 1
          else membership db conv.id v s) =
        rw (after, ← asked-participants db conv v uids)
          (count-add_member participants conv.id v (map (participant_of db conv) uids)
            s.participants (participants-AllIn db conv uids)) in
      ground arith

  -- Adding participants to a conversation that has none.
  filled :
      (cfg : Config) (conv : Conversation) (uids : List ℕ) (s s' : Store db) (added : List ℕ)
      (conv' : Conversation)
      → IsStored conversations conv s.conversations
      → members db conv.id s ≡ 0
      → includes conv.owner_id uids ≡ true
      → add_participants db cfg conv uids true s ≡ (ok (added, conv'), s')
      → (conv'.id ≡ conv.id)
        × IsSound db conv' s'
        × ((v : ℕ) → membership db conv.id v s' ≡ (if includes v uids then 1 else 0))
  unfolding current_count
  filled cfg conv uids s s' added conv' stored nobody named h =
      let (_, e, after, obj, written) =
        add_participants-eq-ok db cfg conv uids true s s' 0 added conv' refl h in
      let ps = map (participant_of db conv) uids in
      let inside = participants-AllIn db conv uids in
      let n = int (pos (0 + length added)) in
      let (same_id, same_kind, same_owner) = recounted_same conv n in
      let total : members db conv.id s' ≡ length added + members db conv.id s =
        rw (after, e) (count-add_conversation participants conv.id ps s.participants inside) in
      let who = λ (v : ℕ). first_members conv uids v s s' nobody after in
      (
        ap (λ (c : Conversation). c.id) (obj ∙ recounted_lem conv n) ∙ same_id,
        subst (λ c. IsSound db c s') (sym (obj ∙ recounted_lem conv n))
            (record {
              stored =
                  recounted-IsStored conversations conv n s.conversations s'.conversations stored
                    written;
              unique = λ v. rw same_id (ground (arith, who v));
              counted = λ c.
                  recounted-counted conv n c
                  ∙ ap (λ (k : ℕ). int (pos k)) (rw same_id (omega (arith, total)));
              owned = λ p. rw (same_id, same_owner) (ground (arith, who conv.owner_id));
            }),
        who,
      )

  -- A creation that names its owner leaves a sound conversation with the next id of the driver: its
  -- participants are exactly the users of the request, each once, when nothing refers to that id yet.
  pub create-IsSound :
      (cfg : Config) (user : User) (params : ConversationParams) (now : ℕ) (uids : List ℕ)
      (s s' : Store db) (conv : Conversation)
      → IsFresh s
      → includes user.id uids ≡ true
      → create db cfg (some user) params now uids s ≡ (ok conv, s')
      → (conv.id ≡ conversations.new_id s.conversations)
        × IsSound db conv s'
        × ((v : ℕ)
            → membership db (conversations.new_id s.conversations) v s'
              ≡ (if includes v uids then 1 else 0))
  unfolding create insert_conversation fill
  create-IsSound cfg user params now [] s s' conv fresh named h = absurd (false≢true named)
  create-IsSound cfg user params now (x ∷ xs) s s' conv fresh named h =
      let first = document user params (conversations.new_id s.conversations) now in
      let s0 : Store db = record s {
        conversations = conversations.insert_one first s.conversations;
      } in
      let ((added, conv'), s1, e, k) =
        bind_ok (add_participants db cfg first (x ∷ xs) true s0) _ conv s' h in
      let (same, kept) = returned conv' conv s1 s' k in
      rw (← same, ← kept)
        (filled cfg first (x ∷ xs) s0 s1 added conv'
          (inserted-IsStored first s.conversations fresh.0) fresh.1 named e)
