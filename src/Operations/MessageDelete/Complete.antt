-- ===== src/Operations/MessageDelete/Complete.antt =====
-- A successful deletion request leaves none of its messages, and a hiding one shows none of them.
use sama_server.Prelude.{
  ℕ, ◌==◌, ◌≡◌, refl, sym, ap, ◌∙◌, Bool, true, false, not, ◌&&◌, ◌||◌, List, [], ◌∷◌, none, some,
  if◌then◌else◌, includes, is_empty, any-count, count, arith, Bool-cases, inl, inr, ==_refl, ◌⊎◌,
}
use sama_server.Mongo.Counting.{count_mono}
use sama_server.Errors.{ok, Result}
use sama_server.Store.{Conversation, Message, Driver, Store}
use sama_server.Repositories.Messages.{in_scope, by_author, delete_by_ids_in_conversation}
use sama_server.Conversation.{Access, has_access_to_conversation}
use sama_server.Conversation.Reported.{has_access-conversation}
use sama_server.Messages.{find_messages_by_ids, may_delete, delete_messages_for_everyone}
use sama_server.Messages.Scope.{ids_of, found_all, HasUniqueIds}
use sama_server.Operations.MessageDelete.{
  DeleteParams, Deleted, can_moderate, delete_messages, remove_found,
}
use sama_server.Operations.MessageDelete.Safety.{delete_messages_cases, refuses}

covers :
    (zs xs : List Message)
    → ((k : ℕ) → includes k (ids_of xs) ≡ true → includes k (ids_of zs) ≡ true)
    → count (λ m. not (includes m.id (ids_of zs))) xs ≡ 0
covers zs [] h = refl
covers zs (x ∷ xs) h =
    rw (h x.id (rw (==_refl x.id) refl))
      (omega (arith, covers zs xs (λ k e. h k (rw e (or_true (x.id == k))))))
  where
    or_true : (b : Bool) → (b || true) ≡ true
    or_true true = refl
    or_true false = refl

module _ (db : Driver) where
  open db use {messages}

  -- Every message asked for is among those found.
  pub none_left :
      (ids : List ℕ) (s : Store db)
      → HasUniqueIds db s
      → messages.count
          (λ m. not (includes m.id (ids_of (find_messages_by_ids db ids s))) && includes m.id ids)
          s.messages
        ≡ 0
  none_left ids s u =
      let found = find_messages_by_ids db ids s in
      sym (found_all db (λ m. not (includes m.id (ids_of found))) ids s u)
      ∙ covers found found (λ k e. e)

  -- None of the messages asked for fails the check.
  pub none_refused :
      (org uid : ℕ) (params : DeleteParams) (conv : Conversation) (moderates : Bool) (s : Store db)
      → HasUniqueIds db s
      → refuses db org uid params conv moderates s ≡ false
      → messages.count
          (λ m.
            not (may_delete conv.id org uid (params.for_all && not moderates) m)
            && includes m.id params.ids)
          s.messages
        ≡ 0
  none_refused org uid params conv moderates s u h =
      let bad =
        λ (m : Message). not (may_delete conv.id org uid (params.for_all && not moderates) m) in
      let found = find_messages_by_ids db params.ids s in
      sym (found_all db bad params.ids s u) ∙ ground (arith, any-count bad found)

  pub nothing_found :
      (ids : List ℕ) (s : Store db)
      → HasUniqueIds db s
      → is_empty (find_messages_by_ids db ids s) ≡ true
      → messages.count (λ m. includes m.id ids) s.messages ≡ 0
  nothing_found ids s u h =
      sym (found_all db (λ _. true) ids s u) ∙ empty (find_messages_by_ids db ids s) h
    where
      empty : (ms : List Message) → is_empty ms ≡ true → count (λ _. true) ms ≡ 0
      empty [] h = refl
      empty (m ∷ ms) h = cc

  removed_found :
      (org uid : ℕ) (params : DeleteParams) (conv : Conversation) (moderates : Bool) (s : Store db)
      → HasUniqueIds db s
      → params.for_all ≡ true
      → refuses db org uid params conv moderates s ≡ false
      → messages.count
          (in_scope params.ids conv.id org)
          (remove_found db params org uid conv moderates
            (ids_of (find_messages_by_ids db params.ids s))
            s).messages
        ≡ 0
  unfolding remove_found delete_messages_for_everyone delete_by_ids_in_conversation
  removed_found org uid params conv moderates s u all good =
      let F = ids_of (find_messages_by_ids db params.ids s) in
      let p = in_scope params.ids conv.id org in
      let q = λ (m : Message).
        in_scope F conv.id org m && by_author (if moderates then none else some uid) m in
      let rest = λ (m : Message). p m && not (q m) in
      rw all (
        messages.count-delete_many p q s.messages
        ∙ omega (
          arith,
          messages.count_split rest (λ m. not (includes m.id F)) s.messages,
          none_left params.ids s u,
          none_refused org uid params conv moderates s u good,
          count_mono messages (λ m. rest m && not (includes m.id F))
              (λ m. not (includes m.id F) && includes m.id params.ids) s.messages
              (λ m h. ground arith),
          count_mono messages (λ m. rest m && not (not (includes m.id F)))
              (λ m.
                not (may_delete conv.id org uid (params.for_all && not moderates) m)
                && includes m.id params.ids)
              s.messages (λ m h. ground arith),
        ))

  -- After a successful removal for everyone none of the messages asked for is left in the
  -- conversation, when no two messages share an id.
  pub delete_messages_removed :
      (org uid : ℕ) (params : DeleteParams) (s s' : Store db) (d : Deleted)
      → HasUniqueIds db s
      → params.for_all ≡ true
      → delete_messages db org uid params s ≡ (ok d, s')
      → messages.count (in_scope params.ids params.cid org) s'.messages ≡ 0
  delete_messages_removed org uid params s s' d u all h =
      elim (delete_messages_cases db org uid params s) [
        | inl (e, refused) ↦ absurd (cc)
        | inr (conv, (found, _, good, done)) ↦
            let (same, _, _) = has_access-conversation db org params.cid uid s conv found in
            let after : s' ≡ _ = ap (λ (r : Result Deleted × Store db). r.1) (sym h ∙ done) in
            rw (← same, after)
              (no_message conv good (Bool-cases (is_empty (find_messages_by_ids db params.ids s))))
      ]
    where
      a : Access
      a = has_access_to_conversation db org params.cid uid s

      found_ms : List Message
      found_ms = find_messages_by_ids db params.ids s

      no_message :
          (conv : Conversation)
          → refuses db org uid params conv (can_moderate conv a) s ≡ false
          → (is_empty found_ms ≡ true) ⊎ (is_empty found_ms ≡ false)
          → messages.count
              (in_scope params.ids conv.id org)
              (if is_empty found_ms
                then s
                else remove_found db params org uid conv
                    (can_moderate conv a)
                    (ids_of found_ms)
                    s).messages
            ≡ 0
      no_message conv good (inl e) = rw e (
          omega (
            arith,
            nothing_found params.ids s u e,
            count_mono messages (in_scope params.ids conv.id org) (λ m. includes m.id params.ids)
                s.messages (λ m h. ground arith),
          ))
      no_message conv good (inr e) =
          rw e (removed_found org uid params conv (can_moderate conv a) s u all good)
