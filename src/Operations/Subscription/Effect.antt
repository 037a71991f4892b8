-- ===== src/Operations/Subscription/Effect.antt =====
-- What a user's subscription to a channel, and its end, do to the members of the channel.
use sama_server.Prelude.{
  ℕ, ◌≤◌, ◌==◌, ◌≡◌, ◌⊎◌, sym, ap, ◌∙◌, true, false, List, [], ◌∷◌, some, arith, if◌then◌else◌,
  Bool-cases, inl, inr, ==_iff,
}
use sama_server.Errors.{Result, ok, err, bind, return}
use sama_server.Store.{Conversation, Driver, Store, Config}
use sama_server.Repositories.Conversations.{find_by_id_with_org_scope, is_channel}
use sama_server.Conversation.{Removal, add_participants, remove_participants}
use sama_server.Conversation.Members.{members, membership, IsSound}
use sama_server.Conversation.Adding.{
  add_participants-id, add_participants-members, add_participants-IsSound,
}
use sama_server.Conversation.Removing.{
  settled, settled-id, remove_participants-members, remove_participants-IsSound,
}
use sama_server.Operations.Subscription.{
  RequestType, subscribing, unsubscribing, retrieve_conversation, subscribe, unsubscribe,
  subscribe_unsubscribe,
}

-- An action that ends in `return tt` succeeds with what comes before it.
module _ {S A : Type 0} where
  bind-return :
      (r : Result A × S) (s' : S)
      → bind r (λ _. return tt) ≡ (ok tt, s')
      → (a : A) × (r ≡ (ok a, s'))
  bind-return (ok a, s) s' h = (a, ap (λ (r : Result (Unit {0}) × S). (ok a, r.1)) h)
  bind-return (err e, s) s' h = absurd (cc)

module _ (db : Driver) where
  found_channel :
      (cfg : Config) (org uid : ℕ) (type : RequestType) (cid : ℕ) (s s' : Store db)
      (conv : Conversation)
      → find_by_id_with_org_scope db.conversations org cid s.conversations ≡ some conv
      → subscribe_unsubscribe db cfg org uid type cid s ≡ (ok tt, s')
      → is_channel conv.kind ≡ true
  unfolding subscribe_unsubscribe
  found_channel cfg org uid type cid s s' conv e h = elim (Bool-cases (is_channel conv.kind)) [
    | inl c ↦ c
    | inr c ↦ absurd (cc (rw (e, c, subscribe_unsubscribe, retrieve_conversation) at h))
  ]

  found_id :
      (org cid : ℕ) (s : Store db) (conv : Conversation)
      → find_by_id_with_org_scope db.conversations org cid s.conversations ≡ some conv
      → conv.id ≡ cid
  unfolding find_by_id_with_org_scope
  found_id org cid s conv e =
      let (passes, _) = db.conversations.find_one_some _ s.conversations conv e in ground arith

  subscribed :
      (cfg : Config) (org uid cid : ℕ) (s s' : Store db) (conv : Conversation)
      → find_by_id_with_org_scope db.conversations org cid s.conversations ≡ some conv
      → is_channel conv.kind ≡ true
      → subscribe_unsubscribe db cfg org uid subscribing cid s ≡ (ok tt, s')
      → (r : List ℕ × Conversation) × (add_participants db cfg conv (uid ∷ []) false s ≡ (ok r, s'))
  unfolding subscribe_unsubscribe
  subscribed cfg org uid cid s s' conv e c h =
      bind-return (add_participants db cfg conv (uid ∷ []) false s) s'
        (rw (e, c, subscribe_unsubscribe, retrieve_conversation, subscribe) at h)

  unsubscribed :
      (cfg : Config) (org uid cid : ℕ) (s s' : Store db) (conv : Conversation)
      → find_by_id_with_org_scope db.conversations org cid s.conversations ≡ some conv
      → is_channel conv.kind ≡ true
      → subscribe_unsubscribe db cfg org uid unsubscribing cid s ≡ (ok tt, s')
      → (r : Removal) × (remove_participants db conv (uid ∷ []) s ≡ (ok r, s'))
  unfolding subscribe_unsubscribe
  unsubscribed cfg org uid cid s s' conv e c h =
      bind-return (remove_participants db conv (uid ∷ []) s) s'
        (rw (e, c, subscribe_unsubscribe, retrieve_conversation, unsubscribe) at h)

  -- After a successful subscription to a sound channel the caller is a participant of it, once;
  -- whether anyone else is one has not changed; the channel is sound and within the limit.
  pub subscribe_lem :
      (cfg : Config) (org uid cid : ℕ) (s s' : Store db) (conv : Conversation)
      → find_by_id_with_org_scope db.conversations org cid s.conversations ≡ some conv
      → IsSound db conv s
      → subscribe_unsubscribe db cfg org uid subscribing cid s ≡ (ok tt, s')
      → ((v : ℕ) → membership db cid v s' ≡ (if v == uid then 1 else membership db cid v s))
        × (members db cid s' ≤ cfg.max_participants)
        × ((conv' : Conversation) × ((conv'.id ≡ cid) × IsSound db conv' s'))
  subscribe_lem cfg org uid cid s s' conv e sound h =
      let c = found_channel cfg org uid subscribing cid s s' conv e h in
      let ((added, conv'), run) = subscribed cfg org uid cid s s' conv e c h in
      let (room, _, who) =
        add_participants-members db cfg conv (uid ∷ []) s s' added conv' sound run in
      rw (← found_id org cid s conv e) (
        λ v. ground (arith, (who v).0, sound.unique v),
        room,
        (
          conv',
          (
            add_participants-id db cfg conv (uid ∷ []) s s' added conv' sound run,
            add_participants-IsSound db cfg conv (uid ∷ []) s s' added conv' sound run,
          ),
        ),
      )

  -- After a successful end of a subscription to a sound channel the caller is no participant of it;
  -- whether anyone else is one has not changed; the channel is sound, or nobody is left in it.
  pub unsubscribe_lem :
      (cfg : Config) (org uid cid : ℕ) (s s' : Store db) (conv : Conversation)
      → find_by_id_with_org_scope db.conversations org cid s.conversations ≡ some conv
      → IsSound db conv s
      → subscribe_unsubscribe db cfg org uid unsubscribing cid s ≡ (ok tt, s')
      → ((v : ℕ) → membership db cid v s' ≡ (if v == uid then 0 else membership db cid v s))
        × ((members db cid s' ≡ 0)
            ⊎ ((conv' : Conversation) × ((conv'.id ≡ cid) × IsSound db conv' s')))
  unsubscribe_lem cfg org uid cid s s' conv e sound h =
      let c = found_channel cfg org uid unsubscribing cid s s' conv e h in
      let (r, run) = unsubscribed cfg org uid cid s s' conv e c h in
      let (_, empty, who) = remove_participants-members db conv (uid ∷ []) s s' r sound run in
      rw (← found_id org cid s conv e) (
        λ v. ground (arith, (who v).0),
        elim (Bool-cases r.is_empty_and_deleted) [
          | inl flag ↦ inl ((==_iff _ _).0 (sym empty ∙ flag))
          | inr flag ↦ inr (
            settled r,
            (
              settled-id db conv (uid ∷ []) s s' r run flag,
              remove_participants-IsSound db conv (uid ∷ []) s s' r sound run flag,
            ),
          )
        ],
      )
