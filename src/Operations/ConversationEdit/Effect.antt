-- ===== src/Operations/ConversationEdit/Effect.antt =====
-- What the edition of a conversation does to it and to its participants.
use sama_server.Operations.ConversationEdit.Allowed.{check_edit_access_ok}
use sama_server.Prelude.{
  ℕ, ◌≡◌, ◌⊎◌, refl, sym, ◌∙◌, subst, Bool, true, false, List, Option, none, some, if◌then◌else◌,
  is_empty, arith, Bool-cases, inl, inr, ==_iff,
}
use sama_server.Errors.{ok, return, bind_ok, returned}
use sama_server.Store.{IdChanges, admin, plain, Conversation, Driver, Store, Config}
use sama_server.Repositories.Participants.{in_conversation, add_admin_role, remove_admin_role}
use sama_server.Repositories.Conversations.{
  has_id, is_private, find_by_id, UpdateFields, set_fields, update,
}
use sama_server.Conversation.{
  Removal, add_participants, remove_participants, update_participants, participants_add_admin_role,
  participants_remove_admin_role,
}
use sama_server.Conversation.Stored.{one_document, update_one-IsStored}
use sama_server.Conversation.Members.{members, IsSound}
use sama_server.Conversation.Adding.{add_participants-IsSound, add_participants-id}
use sama_server.Conversation.Removing.{
  settled, remove_participants-members, remove_participants-IsSound, settled-id,
}
use sama_server.Operations.ConversationEdit.{
  EditParams, added_ids, with_admins, check_edit_access, update_fields, existing, update_members,
  update_admins, finish_edit, edit_members, edit_conversation,
}
use sama_server.Conversation.Roles.{set_role_count, set_role-IsSound}

module _ (db : Driver) where
  open db use {participants, conversations}

  -- A sound conversation with the id, or nobody in it.
  abbrev IsLeft : ℕ → Store db → Type 0
  IsLeft cid s =
      (members db cid s ≡ 0) ⊎ ((conv : Conversation) × ((conv.id ≡ cid) × IsSound db conv s))

  if_IsSound :
      (b : Bool) (conv : Conversation) (s t : Store db)
      → IsSound db conv s
      → IsSound db conv t
      → IsSound db conv (if b then s else t)
  if_IsSound true conv s t v w = v
  if_IsSound false conv s t v w = w

  if_members :
      (b : Bool) (cid : ℕ) (s t : Store db)
      → members db cid t ≡ members db cid s
      → members db cid (if b then s else t) ≡ members db cid s
  if_members true cid s t e = refl
  if_members false cid s t e = e

  update_admins-IsSound :
      (cid : ℕ) (admins : Option IdChanges) (conv : Conversation) (s : Store db)
      → IsSound db conv s
      → IsSound db conv (update_admins db cid admins s)
  unfolding update_admins participants_add_admin_role participants_remove_admin_role add_admin_role
      remove_admin_role
  update_admins-IsSound cid none conv s v = v
  update_admins-IsSound cid (some c) conv s v =
      let s1 = if is_empty c.add then s else participants_add_admin_role db cid c.add s in
      let v1 =
        if_IsSound (is_empty c.add) conv s (participants_add_admin_role db cid c.add s) v
          (set_role-IsSound db admin cid c.add conv s v) in
      if_IsSound (is_empty c.remove) conv s1 (participants_remove_admin_role db cid c.remove s1) v1
        (set_role-IsSound db plain cid c.remove conv s1 v1)

  update_admins-members :
      (cid : ℕ) (admins : Option IdChanges) (other : ℕ) (s : Store db)
      → members db other (update_admins db cid admins s) ≡ members db other s
  unfolding update_admins participants_add_admin_role participants_remove_admin_role add_admin_role
      remove_admin_role
  update_admins-members cid none other s = refl
  update_admins-members cid (some c) other s =
      let s1 = if is_empty c.add then s else participants_add_admin_role db cid c.add s in
      let first : members db other s1 ≡ members db other s =
        if_members (is_empty c.add) other s (participants_add_admin_role db cid c.add s)
          (set_role_count db admin cid c.add s.participants (in_conversation other) (λ d. refl)) in
      if_members (is_empty c.remove) other s1 (participants_remove_admin_role db cid c.remove s1)
        (set_role_count db plain cid c.remove s1.participants (in_conversation other) (λ d. refl))
      ∙ first

  updated-IsSound :
      (f : UpdateFields) (conv : Conversation) (s s' : Store db) (found : Option Conversation)
      → find_by_id conversations conv.id s.conversations ≡ some conv
      → IsSound db conv s
      → update_fields db conv.id f s ≡ (ok found, s')
      → (found ≡ some (set_fields f conv)) × IsSound db (set_fields f conv) s'
  unfolding update_fields update find_by_id
  updated-IsSound f conv s s' found there v h =
      let t = conversations.update_one (has_id conv.id) (set_fields f) s.conversations in
      let one = one_document conversations conv s.conversations v.stored in
      let e : conversations.find_one_and_update (has_id conv.id) (set_fields f) s.conversations
          ≡ (some (set_fields f conv), t) =
        conversations.find_one_and_update_lem (has_id conv.id) (set_fields f) s.conversations
          (omega (arith, one))
        ∙ (rw there refl) in
      let (object, here) =
        returned (some (set_fields f conv)) found (record s { conversations = t }) s' (rw e at h) in
      (
        sym object,
        subst (λ z. IsSound db (set_fields f conv) z) here
            (record {
              stored =
                  update_one-IsStored conversations (set_fields f) conv s.conversations (λ d. refl)
                    v.stored;
              unique = v.unique;
              counted = v.counted;
              owned = v.owned;
            }),
      )

  update_participants-IsLeft :
      (cfg : Config) (conv : Conversation) (add remove : List ℕ) (s s' : Store db)
      (r : List ℕ × Removal)
      → IsSound db conv s
      → update_participants db cfg conv add remove s ≡ (ok r, s')
      → IsLeft conv.id s'
  unfolding update_participants
  update_participants-IsLeft cfg conv add remove s s' r v h =
      let ((added, conv1), s1, grown, rest) =
        bind_ok (add_participants db cfg conv add false s) _ r s' h in
      let (removal, s2, shrunk, end) =
        bind_ok (remove_participants db conv1 remove s1) _ r s' rest in
      let v1 = add_participants-IsSound db cfg conv add s s1 added conv1 v grown in
      let same = add_participants-id db cfg conv add s s1 added conv1 v grown in
      let (_, empty, _) = remove_participants-members db conv1 remove s1 s2 removal v1 shrunk in
      let (_, here) = returned _ r s2 s' end in
      subst (IsLeft conv.id) here (elim (Bool-cases removal.is_empty_and_deleted) [
        | inl flag ↦ inl (subst (λ i. members db i s2 ≡ 0) same ((==_iff _ _).0 (sym empty ∙ flag)))
        | inr flag ↦ inr (
          settled removal,
          (
            settled-id db conv1 remove s1 s2 removal shrunk flag ∙ same,
            remove_participants-IsSound db conv1 remove s1 s2 removal v1 shrunk flag,
          ),
        )
      ])

  update_members-IsLeft :
      (cfg : Config) (conv : Conversation) (changes : Option IdChanges) (s s' : Store db)
      (left : Option Conversation)
      → IsSound db conv s
      → update_members db cfg conv changes s ≡ (ok left, s')
      → IsLeft conv.id s'
  unfolding update_members
  update_members-IsLeft cfg conv none s s' left v h =
      let (_, here) = returned (some conv) left s s' h in
      inr (conv, (refl, subst (λ z. IsSound db conv z) here v))
  update_members-IsLeft cfg conv (some c) s s' left v h =
      let (r, s1, run, end) =
        bind_ok
          (update_participants db cfg conv (existing db conv c.add s) (existing db conv c.remove s)
            s)
          _ left s' h in
      let (_, here) = returned _ left s1 s' end in
      subst (IsLeft conv.id) here (
        update_participants-IsLeft cfg conv (existing db conv c.add s) (existing db conv c.remove s)
          s s1 r v run)

  finished-IsLeft :
      (cid : ℕ) (admins : Option IdChanges) (left r : Option Conversation) (s s' : Store db)
      → IsLeft cid s
      → finish_edit db admins left s ≡ (ok r, s')
      → IsLeft cid s'
  unfolding finish_edit
  finished-IsLeft cid admins none r s s' v h = subst (IsLeft cid) (returned none r s s' h).1 v
  finished-IsLeft cid admins (some c) r s s' v h =
      subst (IsLeft cid) (returned (some c) r (update_admins db c.id admins s) s' h).1 (elim v [
        | inl nobody ↦ inl (update_admins-members c.id admins cid s ∙ nobody)
        | inr (conv, (same, w)) ↦ inr (conv, (same, update_admins-IsSound c.id admins conv s w))
      ])

  edit_members-IsLeft :
      (cfg : Config) (conv : Conversation) (params : EditParams) (s s' : Store db)
      (r : Option Conversation)
      → IsSound db conv s
      → edit_members db cfg conv params s ≡ (ok r, s')
      → IsLeft conv.id s'
  unfolding edit_members
  edit_members-IsLeft cfg conv params s s' r v h =
      let changes =
        with_admins params.fields.participants (existing db conv (added_ids params.admins) s) in
      let (left, s1, run, rest) = bind_ok (update_members db cfg conv changes s) _ r s' h in
      finished-IsLeft conv.id params.admins left r s1 s'
        (update_members-IsLeft cfg conv changes s s1 left v run) rest

  -- What follows the assignment of the fields.
  shown-IsLeft :
      (cfg : Config) (params : EditParams) (conv : Conversation) (s s' : Store db)
      (r : Option Conversation)
      → IsSound db conv s
      → (if is_private conv.kind then return (some conv) else edit_members db cfg conv params) s
        ≡ (ok r, s')
      → IsLeft conv.id s'
  shown-IsLeft cfg params conv s s' r v h = elim (Bool-cases (is_private conv.kind)) [
    | inl e ↦
        inr (
          conv,
          (refl, subst (λ z. IsSound db conv z) (returned (some conv) r s s' (rw e at h)).1 v),
        )
    | inr e ↦ edit_members-IsLeft cfg conv params s s' r v (rw e at h)
  ]

  -- After a successful edition of a conversation that was sound, with whatever changes of its fields,
  -- participants and admins, it is sound, or nobody is left in it.
  pub edit_conversation-IsSound :
      (cfg : Config) (org uid : ℕ) (params : EditParams) (conv : Conversation) (s s' : Store db)
      (r : Option Conversation)
      → find_by_id conversations conv.id s.conversations ≡ some conv
      → IsSound db conv s
      → edit_conversation db cfg org uid conv.id params s ≡ (ok r, s')
      → (members db conv.id s' ≡ 0)
        ⊎ ((conv' : Conversation) × ((conv'.id ≡ conv.id) × IsSound db conv' s'))
  unfolding edit_conversation
  edit_conversation-IsSound cfg org uid params conv s s' r there v h =
      let (_, s1, checked, h1) = bind_ok (check_edit_access db org conv.id uid s) _ r s' h in
      let (here, _) = check_edit_access_ok db org conv.id uid s s1 checked in
      let (found, s2, wrote, h2) = bind_ok (update_fields db conv.id params.fields s1) _ r s' h1 in
      let wrote' : update_fields db conv.id params.fields s ≡ (ok found, s2) =
        subst (λ z. update_fields db conv.id params.fields z ≡ (ok found, s2)) here wrote in
      let (object, w) = updated-IsSound params.fields conv s s2 found there v wrote' in
      shown-IsLeft cfg params (set_fields params.fields conv) s2 s' r w (rw object at h2)
