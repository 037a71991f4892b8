-- ===== src/Operations/MessageDelete/Hidden.antt =====
-- A successful request to hide messages hides them from the caller alone.
use mathlib.Core.Bool.{false≢true}
use sama_server.Prelude.{
  ℕ, ◌==◌, ◌≡◌, refl, sym, ap, ◌∙◌, Bool, true, false, not, ◌&&◌, List, none, if◌then◌else◌,
  includes, is_empty, arith, Bool-cases, inl, inr, ==_iff, ==_refl, Option-cases, ◌⊎◌,
}
use sama_server.Mongo.Counting.{count_ext, count_mono}
use sama_server.Errors.{ok, Result}
use sama_server.Store.{Conversation, Message, Driver, Store}
use sama_server.Repositories.Messages.{
  in_scope, hide_for, is_visible, update_delete_for_user, find_message_by_id,
}
use sama_server.Conversation.{Access, has_access_to_conversation}
use sama_server.Conversation.Reported.{has_access-conversation}
use sama_server.Messages.{find_messages_by_ids, may_delete, hide_messages_for_user}
use sama_server.Messages.Scope.{ids_of, HasUniqueIds}
use sama_server.Operations.MessageDelete.{
  DeleteParams, Deleted, can_moderate, delete_messages, remove_found,
}
use sama_server.Operations.MessageDelete.Complete.{none_left, none_refused, nothing_found}
use sama_server.Operations.MessageDelete.Safety.{delete_messages_cases, refuses}

hide_for-hides : (cid uid mid : ℕ) (m : Message) → is_visible cid uid mid (hide_for uid m) ≡ false
hide_for-hides cid uid mid m = elim (Bool-cases (includes uid m.deleted_for)) [
  | inl e ↦ rw e (rw e (ground arith))
  | inr e ↦ rw e (rw (==_refl uid) (ground arith))
]

hide_for-keeps :
    (cid uid other mid : ℕ) (m : Message)
    → (uid == other) ≡ false
    → is_visible cid other mid (hide_for uid m) ≡ is_visible cid other mid m
hide_for-keeps cid uid other mid m h = elim (Bool-cases (includes uid m.deleted_for)) [
  | inl e ↦ rw e refl
  | inr e ↦ rw (e, h) refl
]

-- A message that stays visible was not in the scope of the write.
visible_after :
    (cid uid mid : ℕ) (q : Bool) (m : Message)
    → is_visible cid uid mid (if q then hide_for uid m else m) ≡ true
    → (q ≡ false) × ((m.id == mid) ≡ true) × ((m.cid == cid) ≡ true)
visible_after cid uid mid true m h = absurd (false≢true (sym (hide_for-hides cid uid mid m) ∙ h))
visible_after cid uid mid false m h = (refl, ground arith, ground arith)

asked_at :
    (mid k : ℕ) (ids : List ℕ) → includes mid ids ≡ true → (k == mid) ≡ true → includes k ids ≡ true
asked_at mid k ids h e = rw ((==_iff k mid).0 e) h

and_left : (a b : Bool) → (a && b) ≡ true → a ≡ true
and_left a b h = ground arith

module _ (db : Driver) where
  open db use {messages}

  hidden_found :
      (org uid mid : ℕ) (params : DeleteParams) (conv : Conversation) (moderates : Bool)
      (s : Store db)
      → HasUniqueIds db s
      → params.for_all ≡ false
      → includes mid params.ids ≡ true
      → refuses db org uid params conv moderates s ≡ false
      → messages.count
          (is_visible conv.id uid mid)
          (remove_found db params org uid conv moderates
            (ids_of (find_messages_by_ids db params.ids s))
            s).messages
        ≡ 0
  unfolding remove_found hide_messages_for_user update_delete_for_user
  hidden_found org uid mid params conv moderates s u own asked good =
      let F = ids_of (find_messages_by_ids db params.ids s) in
      let vis = is_visible conv.id uid mid in
      let q = in_scope F conv.id org in
      let after = λ (m : Message). vis (if q m then hide_for uid m else m) in
      rw own (
        messages.count-update_many vis q (hide_for uid) s.messages
        ∙ omega (
          arith,
          messages.count_split after (λ m. not (includes m.id F)) s.messages,
          none_left db params.ids s u,
          none_refused db org uid params conv moderates s u good,
          count_mono messages (λ m. after m && not (includes m.id F))
              (λ m. not (includes m.id F) && includes m.id params.ids) s.messages
              (λ m h.
                let (_, e, _) = visible_after conv.id uid mid (q m) m (and_left (after m) _ h) in
                ground (arith, asked_at mid m.id params.ids asked e)),
          count_mono messages (λ m. after m && not (not (includes m.id F)))
              (λ m.
                not (may_delete conv.id org uid (params.for_all && not moderates) m)
                && includes m.id params.ids)
              s.messages
              (λ m h.
                let (out, e, c) = visible_after conv.id uid mid (q m) m (and_left (after m) _ h) in
                ground (arith, asked_at mid m.id params.ids asked e)),
        ))

  kept_found :
      (org uid other mid : ℕ) (params : DeleteParams) (conv : Conversation) (moderates : Bool)
      (ids : List ℕ) (s : Store db)
      → params.for_all ≡ false
      → (uid == other) ≡ false
      → messages.count
          (is_visible conv.id other mid)
          (remove_found db params org uid conv moderates ids s).messages
        ≡ messages.count (is_visible conv.id other mid) s.messages
  unfolding remove_found hide_messages_for_user update_delete_for_user
  kept_found org uid other mid params conv moderates ids s own ne = rw own (
      messages.count-update_many (is_visible conv.id other mid) (in_scope ids conv.id org)
        (hide_for uid) s.messages
      ∙ count_ext messages s.messages (λ m. same (in_scope ids conv.id org m) m))
    where
      same :
          (q : Bool) (m : Message)
          → is_visible conv.id other mid (if q then hide_for uid m else m)
            ≡ is_visible conv.id other mid m
      same true m = hide_for-keeps conv.id uid other mid m ne
      same false m = refl

  -- After a successful request to hide messages, the caller no longer finds a message of the
  -- request in the conversation, and every other user finds what was found before, when no two
  -- messages share an id.
  pub delete_messages_hidden :
      (org uid mid other : ℕ) (params : DeleteParams) (s s' : Store db) (d : Deleted)
      → HasUniqueIds db s
      → params.for_all ≡ false
      → delete_messages db org uid params s ≡ (ok d, s')
      → includes mid params.ids ≡ true
      → (uid == other) ≡ false
      → (find_message_by_id messages params.cid uid mid s'.messages ≡ none)
        × (messages.count (is_visible params.cid other mid) s'.messages
            ≡ messages.count (is_visible params.cid other mid) s.messages)
  unfolding find_message_by_id
  delete_messages_hidden org uid mid other params s s' d u own h asked ne =
      elim (delete_messages_cases db org uid params s) [
        | inl (e, refused) ↦ absurd (cc)
        | inr (conv, (found, _, good, done)) ↦
            let (same, _, _) = has_access-conversation db org params.cid uid s conv found in
            let after : s' ≡ _ = ap (λ (r : Result Deleted × Store db). r.1) (sym h ∙ done) in
            rw (← same, after) (both conv good (Bool-cases (is_empty found_ms)))
      ]
    where
      a : Access
      a = has_access_to_conversation db org params.cid uid s

      found_ms : List Message
      found_ms = find_messages_by_ids db params.ids s

      nothing_counts :
          (cid : ℕ) (t : db.Messages)
          → messages.count (is_visible cid uid mid) t ≡ 0
          → messages.find_one (is_visible cid uid mid) t ≡ none
      nothing_counts cid t z = elim (Option-cases (messages.find_one (is_visible cid uid mid) t)) [
        | inl e ↦ e
        | inr (m, e) ↦
            let (passes, counts) = messages.find_one_some (is_visible cid uid mid) t m e in
            let some_counts = counts (is_visible cid uid mid) passes in absurd (omega arith)
      ]

      both :
          (conv : Conversation)
          → refuses db org uid params conv (can_moderate conv a) s ≡ false
          → (is_empty found_ms ≡ true) ⊎ (is_empty found_ms ≡ false)
          → let t =
              if is_empty found_ms
              then s
              else remove_found db params org uid conv (can_moderate conv a) (ids_of found_ms) s in
            (messages.find_one (is_visible conv.id uid mid) t.messages ≡ none)
            × (messages.count (is_visible conv.id other mid) t.messages
                ≡ messages.count (is_visible conv.id other mid) s.messages)
      both conv good (inl e) = rw e (
        nothing_counts conv.id s.messages (
            omega (
              arith,
              nothing_found db params.ids s u e,
              count_mono messages (is_visible conv.id uid mid) (λ m. includes m.id params.ids)
                  s.messages (λ m v. asked_at mid m.id params.ids asked (ground arith)),
            )),
        refl,
      )
      both conv good (inr e) = rw e (
        nothing_counts conv.id _
            (hidden_found org uid mid params conv (can_moderate conv a) s u own asked good),
        kept_found org uid other mid params conv (can_moderate conv a) (ids_of found_ms) s own ne,
      )
