-- ===== src/Operations/ConversationCreate/Effect.antt =====
-- The group or channel that a request creates.
use mathlib.Core.Bool.{false≢true}
use sama_server.Prelude.{
  ℕ, ◌==◌, ◌≡◌, refl, ap, subst, sym, ◌∙◌, Bool, true, false, ◌&&◌, ◌||◌, List, [], ◌∷◌, ◌++◌, some,
  arith, if◌then◌else◌, ltb, map, any, any-count, includes, is_empty, length, Bool-cases, inl, inr,
  ==_iff, ==_refl,
}
use sama_server.Mongo.Counting.{count_ext, count_zero}
use sama_server.Errors.{ok}
use sama_server.Store.{User, Kind, private, group, channel, Conversation, Driver, Store, Config}
use sama_server.Repositories.Users.{find_user, retrieve_existed_ids}
use sama_server.Repositories.Conversations.{is_private}
use sama_server.Conversation.Members.{membership, IsSound}
use sama_server.Conversation.Creation.{ConversationParams, create}
use sama_server.Conversation.Creation.Effect.{IsFresh, create-IsSound}
use sama_server.Operations.ConversationCreate.{
  with_owner, create_group_conversation, create_channel_conversation, dispatch_kind,
  create_conversation,
}

includes-append :
    (v : ℕ) (xs ys : List ℕ) → includes v (xs ++ ys) ≡ (includes v xs || includes v ys)
includes-append v [] ys = refl
includes-append v (x ∷ xs) ys = ground (arith, includes-append v xs ys)

includes-with_owner :
    (uid v : ℕ) (ids : List ℕ) → includes v (with_owner uid ids) ≡ ((uid == v) || includes v ids)
includes-with_owner uid v ids = elim (Bool-cases (includes uid ids)) [
  | inr out ↦ rw out (includes-append v ids (uid ∷ []) ∙ ground arith)
  | inl there ↦ rw there (elim (Bool-cases (uid == v)) [
    | inr e ↦ rw e refl
    | inl e ↦ rw e (rw (← (==_iff uid v).0 e) there)
  ])
]

includes-ids : (v : ℕ) (us : List User) → includes v (map (λ u. u.id) us) ≡ any (λ u. u.id == v) us
includes-ids v [] = refl
includes-ids v (u ∷ us) = rw (includes-ids v us)

asked :
    (org v : ℕ) (ids : List ℕ) (u : User)
    → includes v ids ≡ true
    → (u.id == v && (u.organization_id == org && includes u.id ids))
      ≡ (u.organization_id == org && u.id == v)
asked org v ids u h = elim (Bool-cases (u.id == v)) [
  | inl e ↦ rw ((==_iff u.id v).0 e, h, ==_refl v) (ground arith)
  | inr e ↦ ground arith
]

unasked :
    (org v : ℕ) (ids : List ℕ) (u : User)
    → includes v ids ≡ false
    → (u.id == v && (u.organization_id == org && includes u.id ids)) ≡ false
unasked org v ids u h = elim (Bool-cases (u.id == v)) [
  | inl e ↦ rw ((==_iff u.id v).0 e, h) (ground arith)
  | inr e ↦ ground arith
]

module _ (db : Driver) where
  -- Whether the store has a user of the organization with the id.
  abbrev pub is_user : ℕ → ℕ → Store db → Bool
  is_user org uid s = ltb 0 (db.users.count (λ u. u.organization_id == org && u.id == uid) s.users)

  -- The ids that the operation goes on with.
  abbrev named : ℕ → List ℕ → Store db → List ℕ
  named org participants s =
      if is_empty participants then [] else retrieve_existed_ids db.users org participants s.users

  abbrev Created : ℕ → List ℕ → Store db → Store db → Conversation → Type 0
  Created uid ids s s' conv =
      IsSound db conv s'
      × ((v : ℕ)
          → membership db (db.conversations.new_id s.conversations) v s'
            ≡ (if uid == v || includes v ids then 1 else 0))

  created :
      (cfg : Config) (user : User) (params : ConversationParams) (now : ℕ) (ids : List ℕ)
      (s s' : Store db) (conv : Conversation)
      → IsFresh db s
      → create db cfg (some user) params now (with_owner user.id ids) s ≡ (ok conv, s')
      → Created user.id ids s s' conv
  created cfg user params now ids s s' conv fresh h =
      let (_, sound, who) =
        create-IsSound db cfg user params now (with_owner user.id ids) s s' conv fresh
          (includes-with_owner user.id user.id ids ∙ rw (==_refl user.id) refl) h in
      (sound, λ v. rw (← includes-with_owner user.id v ids) (who v))

  dispatched :
      (kind : Kind) (cfg : Config) (user : User) (params : ConversationParams) (now : ℕ)
      (ids : List ℕ) (s s' : Store db) (conv : Conversation)
      → is_private kind ≡ false
      → IsFresh db s
      → dispatch_kind db kind cfg user.id (some user) params now ids s ≡ (ok conv, s')
      → Created user.id ids s s' conv
  unfolding create_group_conversation create_channel_conversation
  dispatched private cfg user params now ids s s' conv shared fresh h =
      absurd (false≢true (sym shared))
  dispatched group cfg user params now ids s s' conv shared fresh h =
      elim (Bool-cases (length (with_owner user.id ids) == 1)) [
        | inl alone ↦ absurd (cc (rw (alone, create_group_conversation) at h))
        | inr more ↦
            created cfg user params now ids s s' conv fresh
              (rw (more, create_group_conversation) at h)
      ]
  dispatched channel cfg user params now ids s s' conv shared fresh h =
      created cfg user params now ids s s' conv fresh h

  includes-named :
      (org v : ℕ) (participants : List ℕ) (s : Store db)
      → includes v (named org participants s) ≡ (includes v participants && is_user org v s)
  unfolding retrieve_existed_ids
  includes-named org v [] s = refl
  includes-named org v (x ∷ xs) s =
      let ids = x ∷ xs in
      let q = λ (u : User). u.organization_id == org && includes u.id ids in
      includes-ids v (db.users.find_all q s.users)
      ∙ (any-count (λ u. u.id == v) (db.users.find_all q s.users)
          ∙ (ap (ltb 0) (db.users.count-find_all (λ u. u.id == v) q s.users)
              ∙ elim (Bool-cases (includes v ids)) [
                | inl e ↦ rw e (ap (ltb 0) (count_ext db.users s.users (λ u. asked org v ids u e)))
                | inr e ↦
                    rw e (ap (ltb 0) (count_zero db.users s.users (λ u. unasked org v ids u e)))
              ]))

  found_user :
      (uid : ℕ) (user : User) (s : Store db)
      → find_user db.users uid s.users ≡ some user
      → user.id ≡ uid
  unfolding find_user
  found_user uid user s e =
      (==_iff user.id uid).0 (db.users.find_one_some (λ u. u.id == uid) s.users user e).0

  -- A group or channel that a known caller creates is sound, and its participants are the caller and
  -- those named in the request that the store has as users of the organization, each once, when
  -- nothing in the store refers yet to the id that the driver gives it.
  pub create_conversation-IsSound :
      (cfg : Config) (org uid : ℕ) (user : User) (params : ConversationParams)
      (participants : List ℕ) (now : ℕ) (s s' : Store db) (conv : Conversation)
      → find_user db.users uid s.users ≡ some user
      → is_private params.kind ≡ false
      → IsFresh db s
      → create_conversation db cfg org uid params participants now s ≡ (ok conv, s')
      → IsSound db conv s'
        × ((v : ℕ)
            → membership db (db.conversations.new_id s.conversations) v s'
              ≡ (if uid == v || (includes v participants && is_user org v s) then 1 else 0))
  unfolding create_conversation
  create_conversation-IsSound cfg org uid user params participants now s s' conv e shared fresh h =
      let same = found_user uid user s e in
      let ids = named org participants s in
      let run : dispatch_kind db params.kind cfg user.id (some user) params now ids s
          ≡ (ok conv, s') =
        subst (λ i. dispatch_kind db params.kind cfg i (some user) params now ids s ≡ (ok conv, s'))
          (sym same) (rw (e, create_conversation) at h) in
      let (sound, who) =
        subst (λ i. Created i ids s s' conv) same
          (dispatched params.kind cfg user params now ids s s' conv shared fresh run) in
      (sound, λ v. rw (← includes-named org v participants s) (who v))
