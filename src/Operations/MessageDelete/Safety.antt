-- ===== src/Operations/MessageDelete/Safety.antt =====
-- Which messages a deletion request can touch, and what a request that fails leaves behind.
use sama_server.Prelude.{
  ℕ, ◌≡◌, refl, ap, ◌∙◌, Bool, true, false, not, ◌&&◌, List, [], ◌∷◌, some, if◌then◌else◌, is_empty,
  any, Bool-cases, inl, inr, Option-cases, ◌⊎◌,
}
use sama_server.Errors.{conversation_not_found, forbidden, ok, err, Error, Result}
use sama_server.Store.{Conversation, Driver, Store}
use sama_server.Conversation.{Access, has_access_to_conversation}
use sama_server.Messages.{may_delete, find_messages_by_ids}
use sama_server.Messages.Scope.{ids_of, validate_messages_for_delete_lem}
use sama_server.Operations.MessageDelete.{
  DeleteParams, Deleted, can_moderate, check_access, apply, delete_found, delete_messages,
  remove_found, deleted_of,
}

module _ (db : Driver) where
  open db use {messages}

  -- The messages of the request that fail the check of their deletion.
  abbrev pub refuses : ℕ → ℕ → DeleteParams → Conversation → Bool → Store db → Bool
  refuses org uid params conv moderates s =
      any (λ m. not (may_delete conv.id org uid (params.for_all && not moderates) m))
        (find_messages_by_ids db params.ids s)

  apply_lem :
      (params : DeleteParams) (org uid : ℕ) (conv : Conversation) (moderates : Bool) (s : Store db)
      → apply db params org uid conv moderates (find_messages_by_ids db params.ids s) s ≡ (
          if refuses org uid params conv moderates s then (err forbidden, s) else (
            ok tt,
            remove_found db params org uid conv moderates
                (ids_of (find_messages_by_ids db params.ids s))
                s,
          ))
  unfolding apply
  apply_lem params org uid conv moderates s =
      let found = find_messages_by_ids db params.ids s in
      let author = params.for_all && not moderates in
      elim (Bool-cases (refuses org uid params conv moderates s)) [
        | inl e ↦ rw (validate_messages_for_delete_lem db found conv.id org uid author s, e) refl
        | inr e ↦ rw (validate_messages_for_delete_lem db found conv.id org uid author s, e) refl
      ]

  -- A request either fails and leaves the store as it was, or works on the conversation of a
  -- participant, and every message that it found passes the check.
  abbrev pub Succeeds :
      ℕ → ℕ → DeleteParams → Store db → Result Deleted × Store db → Conversation → Type 0
  Succeeds org uid params s r conv =
      let a = has_access_to_conversation db org params.cid uid s in
      let moderates = can_moderate conv a in
      let found = find_messages_by_ids db params.ids s in
      (a.conversation ≡ some conv)
      × (a.as_participant ≡ true)
      × (refuses org uid params conv moderates s ≡ false)
      × (r ≡ (
        ok (deleted_of params uid conv),
        if is_empty found
            then s
            else remove_found db params org uid conv moderates (ids_of found) s,
      ))

  some_refused : {A : Type 0} (p : A → Bool) (xs : List A) → any p xs ≡ true → is_empty xs ≡ false
  some_refused p [] h = cc
  some_refused p (x ∷ xs) h = refl

  delete_found_cases :
      (org uid : ℕ) (params : DeleteParams) (conv : Conversation) (access : Access) (s : Store db)
      → let moderates = can_moderate conv access in
        let found = find_messages_by_ids db params.ids s in
        ((refuses org uid params conv moderates s ≡ true)
          × (delete_found db org uid params conv access s ≡ (err forbidden, s)))
        ⊎ ((refuses org uid params conv moderates s ≡ false)
            × (delete_found db org uid params conv access s ≡ (
              ok (deleted_of params uid conv),
              if is_empty found
                  then s
                  else remove_found db params org uid conv moderates (ids_of found) s,
            )))
  unfolding delete_found
  delete_found_cases org uid params conv access s =
      let moderates = can_moderate conv access in
      let found = find_messages_by_ids db params.ids s in
      let after = remove_found db params org uid conv moderates (ids_of found) s in
      let outcome = λ (b : Bool) (e : refuses org uid params conv moderates s ≡ b).
        apply_lem params org uid conv moderates s
        ∙ ap (λ (r : Bool). if r then (err forbidden, s) else (ok tt, after)) e in
      elim (Bool-cases (refuses org uid params conv moderates s)) [
        | inl bad ↦ inl (bad, rw (some_refused _ found bad, outcome true bad) refl)
        | inr good ↦ elim (Bool-cases (is_empty found)) [
          | inl nothing ↦ inr (good, rw nothing refl)
          | inr something ↦ inr (good, rw (something, outcome false good) refl)
        ]
      ]

  pub delete_messages_cases :
      (org uid : ℕ) (params : DeleteParams) (s : Store db)
      → ((e : Error) × (delete_messages db org uid params s ≡ (err e, s)))
        ⊎ ((conv : Conversation) × Succeeds org uid params s
              (delete_messages db org uid params s)
              conv)
  unfolding delete_messages
  delete_messages_cases org uid params s =
      let a = has_access_to_conversation db org params.cid uid s in
      elim (Option-cases a.conversation) [
        | inl e ↦ inl (conversation_not_found, rw (e, delete_messages, check_access))
        | inr (conv, e) ↦ elim (Bool-cases a.as_participant) [
          | inr out ↦ inl (forbidden, rw (e, out, delete_messages, check_access))
          | inl member ↦
              let run : delete_messages db org uid params s
                  ≡ delete_found db org uid params conv a s =
                rw (e, member, delete_messages, check_access) refl in
              elim (delete_found_cases org uid params conv a s) [
                | inl (_, refused) ↦ inl (forbidden, run ∙ refused)
                | inr (good, done) ↦ inr (conv, (e, member, good, run ∙ done))
              ]
        ]
      ]
