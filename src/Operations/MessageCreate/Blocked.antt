-- ===== src/Operations/MessageCreate/Blocked.antt =====
-- Who gets past the checks of a new message.
use mathlib.Core.Bool.{false≢true}
use sama_server.Prelude.{
  ℕ, ◌+◌, ◌<◌, ◌≡◌, refl, sym, ap, ◌∙◌, true, List, [], ◌∷◌, Option, none, some, arith,
  if◌then◌else◌, is_empty, Bool-cases, inl, inr, Option-cases, ltb→lt,
}
use sama_server.Errors.{bind_ok, returned, Result, ok}
use sama_server.Store.{Conversation, Driver, Store, Config}
use sama_server.Repositories.Conversations.{is_private}
use sama_server.Repositories.Messages.{find_message_by_id}
use sama_server.Conversation.{has_access_to_conversation}
use sama_server.Conversation.Members.{membership}
use sama_server.Conversation.Reported.{has_access-participant}
use sama_server.BlockList.{list_mutual_blocked_ids}
use sama_server.BlockList.Effect.{blocks_out, blocks_in, list_mutual_blocked_ids-nil}
use sama_server.Operations.MessageCreate.{
  private_recipients, may_write, check_conversation, check_blocked, check_private, check_access,
  validate_replied_message_id, check_message,
}

module _ (db : Driver) where
  check_conversation-ok :
      (cfg : Config) (org cid uid : ℕ) (s s' : Store db) (conv : Conversation)
      → check_conversation db cfg org cid uid s ≡ (ok conv, s')
      → let a = has_access_to_conversation db org cid uid s in
        (s' ≡ s)
        × (a.conversation ≡ some conv)
        × (a.as_participant ≡ true)
        × (may_write cfg conv a ≡ true)
  unfolding check_conversation
  check_conversation-ok cfg org cid uid s s' conv h =
      let a = has_access_to_conversation db org cid uid s in
      elim (Option-cases a.conversation) [
        | inl e ↦ absurd (cc (rw (e, check_conversation) at h))
        | inr (d, e) ↦ elim (Bool-cases (may_write cfg d a)) [
          | inr w ↦ absurd (cc (rw (e, w, check_conversation) at h))
          | inl w ↦ elim (Bool-cases a.as_participant) [
            | inr p ↦ absurd (cc (rw (e, w, p, check_conversation) at h))
            | inl p ↦
                let run : (ok d, s) ≡ (ok conv, s') = rw (e, w, p, check_conversation) at h in
                let oks : ok d ≡ ok conv = ap (λ (r : Result Conversation × Store db). r.0) run in
                let same : d ≡ conv = cc in
                (
                  sym (ap (λ (r : Result Conversation × Store db). r.1) run),
                  rw (← same) e,
                  p,
                  rw (← same) w,
                )
          ]
        ]
      ]

  nothing : (xs : List ℕ) → is_empty xs ≡ true → xs ≡ []
  nothing [] h = refl
  nothing (x ∷ xs) h = absurd (false≢true h)

  check_private-ok :
      (conv : Conversation) (uid : ℕ) (s s' : Store db) (u : Unit {0})
      → check_private db conv uid s ≡ (ok u, s')
      → (s' ≡ s)
        × ((if is_private conv.kind
              then list_mutual_blocked_ids db uid (private_recipients conv) s
              else [])
            ≡ [])
  unfolding check_private check_blocked
  check_private-ok conv uid s s' u h = elim (Bool-cases (is_private conv.kind)) [
    | inr e ↦ (
      sym (ap (λ (r : Result (Unit {0}) × Store db). r.1) (rw (e, check_private) at h)),
      rw e refl,
    )
    | inl e ↦
        let blocked = list_mutual_blocked_ids db uid (private_recipients conv) s in
        elim (Bool-cases (is_empty blocked)) [
          | inl z ↦ (
            sym (
                ap (λ (r : Result (Unit {0}) × Store db). r.1)
                  (rw (e, z, check_private, check_blocked) at h)),
            rw e (nothing blocked z),
          )
          | inr z ↦ absurd (cc (rw (e, z, check_private, check_blocked) at h))
        ]
  ]

  validate_replied_message_id-ok :
      (cid uid : ℕ) (replied : Option ℕ) (s s' : Store db) (u : Unit {0})
      → validate_replied_message_id db cid uid replied s ≡ (ok u, s')
      → s' ≡ s
  unfolding validate_replied_message_id
  validate_replied_message_id-ok cid uid none s s' u h =
      sym (ap (λ (r : Result (Unit {0}) × Store db). r.1) h)
  validate_replied_message_id-ok cid uid (some mid) s s' u h =
      elim (Option-cases (find_message_by_id db.messages cid uid mid s.messages)) [
        | inl e ↦ absurd (cc (rw (e, validate_replied_message_id) at h))
        | inr (m, e) ↦ sym (
            ap (λ (r : Result (Unit {0}) × Store db). r.1)
              (rw (e, validate_replied_message_id) at h))
      ]

  no_blocks :
      (conv : Conversation) (uid : ℕ) (s : Store db)
      → (if is_private conv.kind
          then list_mutual_blocked_ids db uid (private_recipients conv) s
          else [])
        ≡ []
      → (if is_private conv.kind
          then blocks_out db uid (private_recipients conv) s
            + blocks_in db uid (private_recipients conv) s
          else 0)
        ≡ 0
  no_blocks conv uid s h = elim (Bool-cases (is_private conv.kind)) [
    | inr e ↦ rw e refl
    | inl e ↦
        let (o, i) =
          (list_mutual_blocked_ids-nil db uid (private_recipients conv) s).0 (rw e at h) in
        rw e (omega (arith, o, i))
  ]

  pub check_message-ok :
      (cfg : Config) (org cid uid : ℕ) (replied : Option ℕ) (s s' : Store db) (conv : Conversation)
      → check_message db cfg org cid uid replied s ≡ (ok conv, s')
      → (s' ≡ s)
        × (0 < membership db cid uid s)
        × (may_write cfg conv (has_access_to_conversation db org cid uid s) ≡ true)
        × ((if is_private conv.kind
              then blocks_out db uid (private_recipients conv) s
                + blocks_in db uid (private_recipients conv) s
              else 0)
            ≡ 0)
  unfolding check_message check_access
  check_message-ok cfg org cid uid replied s s' conv h =
      let (c, s1, e1, h1) = bind_ok (check_access db cfg org cid uid s) _ conv s' h in
      let (d, s2, e2, h2) = bind_ok (check_conversation db cfg org cid uid s) _ c s1 e1 in
      let (u3, s3, e3, h3) =
        bind_ok (validate_replied_message_id db cid uid replied s1) _ conv s' h1 in
      let (u4, s4, e4, h4) = bind_ok (check_private db d uid s2) _ c s1 h2 in
      let (c_conv, s3_s') = returned c conv s3 s' h3 in
      let (d_c, s4_s1) = returned d c s4 s1 h4 in
      let s3_s1 = validate_replied_message_id-ok cid uid replied s1 s3 u3 e3 in
      let (s2_s, found, member, may) = check_conversation-ok cfg org cid uid s s2 d e2 in
      let (s4_s2, clear) = check_private-ok d uid s2 s4 u4 e4 in
      let there = has_access-participant db org cid uid s d found in
      rw (← c_conv, ← d_c)
        (
          sym s3_s' ∙ (s3_s1 ∙ (sym s4_s1 ∙ (s4_s2 ∙ s2_s))),
          ltb→lt 0 (membership db cid uid s) (sym there ∙ member),
          may,
          no_blocks d uid s (rw s2_s at clear),
        )

  -- The conversation of the checks is the one that the caller has access to.
  pub check_message-found :
      (cfg : Config) (org cid uid : ℕ) (replied : Option ℕ) (s s' : Store db) (conv : Conversation)
      → check_message db cfg org cid uid replied s ≡ (ok conv, s')
      → (s' ≡ s) × ((has_access_to_conversation db org cid uid s).conversation ≡ some conv)
  unfolding check_message check_access
  check_message-found cfg org cid uid replied s s' conv h =
      let (c, s1, e1, h1) = bind_ok (check_access db cfg org cid uid s) _ conv s' h in
      let (d, s2, e2, h2) = bind_ok (check_conversation db cfg org cid uid s) _ c s1 e1 in
      let (u3, s3, e3, h3) =
        bind_ok (validate_replied_message_id db cid uid replied s1) _ conv s' h1 in
      let (u4, s4, e4, h4) = bind_ok (check_private db d uid s2) _ c s1 h2 in
      let (c_conv, _) = returned c conv s3 s' h3 in
      let (d_c, _) = returned d c s4 s1 h4 in
      let (_, found, _, _) = check_conversation-ok cfg org cid uid s s2 d e2 in
      let (same, _, _, _) = check_message-ok cfg org cid uid replied s s' conv h in
      (same, rw (← c_conv, ← d_c) found)
