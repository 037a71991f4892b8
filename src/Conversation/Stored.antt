-- ===== src/Conversation/Stored.antt =====
-- The conversation object of a request and the document that the store holds for it.
use sama_server.Prelude.{
  Bool-cases, inl, inr, ℕ, ◌≡◌, refl, ◌∙◌, Bool, true, false, ◌&&◌, if◌then◌else◌, arith,
}
use sama_server.Mongo.{Collection}
use sama_server.Mongo.Counting.{count_ext, count_zero}
use sama_server.Store.{channel, Conversation, Count}
use sama_server.Repositories.Conversations.{
  has_id, is_channel, update_owner, update_subscribers_count, delete_by_id,
}

-- The counter of a channel set to the number of its participants.
unfoldable pub recounted : Conversation → Count → Conversation
recounted conv n = if is_channel conv.kind then record conv { subscribers_count = n } else conv

pub recounted_lem :
    (conv : Conversation) (n : Count)
    → (if is_channel conv.kind then record conv { subscribers_count = n } else conv)
      ≡ recounted conv n
unfolding recounted
recounted_lem conv n = refl

pub recounted-counted :
    (conv : Conversation) (n : Count)
    → (recounted conv n).kind ≡ channel
    → (recounted conv n).subscribers_count ≡ n
unfolding recounted
recounted-counted conv n h = ground arith

pub recounted_same :
    (conv : Conversation) (n : Count)
    → ((recounted conv n).id ≡ conv.id)
      × ((recounted conv n).kind ≡ conv.kind)
      × ((recounted conv n).owner_id ≡ conv.owner_id)
unfolding recounted
recounted_same conv n = (ground arith, ground arith, ground arith)

module _ {C : Type 0} (c : Collection Conversation C) where
  -- Exactly one document has the conversation's id, and every query finds in it what it finds in
  -- the object.
  abbrev pub IsStored : Conversation → C → Type 0
  IsStored conv s =
      (p : Conversation → Bool)
      → c.count (λ d. has_id conv.id d && p d) s ≡ (if p conv then 1 else 0)

  pub one_document :
      (conv : Conversation) (s : C) → IsStored conv s → c.count (has_id conv.id) s ≡ 1
  one_document conv s st = count_ext c s (λ d. ground arith) ∙ st (λ _. true)

  -- An update of the document by an assignment that keeps the id.
  pub update_one-IsStored :
      (f : Conversation → Conversation) (conv : Conversation) (s : C)
      → ((d : Conversation) → (f d).id ≡ d.id)
      → IsStored conv s
      → IsStored (f conv) (c.update_one (has_id conv.id) f s)
  update_one-IsStored f conv s keep st p =
      c.count-update_one (λ d. has_id (f conv).id d && p d) (has_id conv.id) f s
        (omega (arith, one_document conv s st))
      ∙ (count_ext c s (λ d. ground (arith, keep d, keep conv)) ∙ st (λ d. p (f d)))

  pub delete_by_id-count :
      (conv : Conversation) (s : C)
      → IsStored conv s
      → c.count (has_id conv.id) (delete_by_id c conv.id s) ≡ 0
  unfolding delete_by_id
  delete_by_id-count conv s st =
      c.count-delete_one (has_id conv.id) (has_id conv.id) s (omega (arith, one_document conv s st))
      ∙ count_zero c s (λ d. ground arith)

  pub recounted-IsStored :
      (conv : Conversation) (n : Count) (t t' : C)
      → IsStored conv t
      → t' ≡ (if is_channel conv.kind then update_subscribers_count c conv.id (n) t else t)
      → IsStored (recounted conv n) t'
  unfolding recounted update_subscribers_count
  recounted-IsStored conv n t t' st e = elim (Bool-cases (is_channel conv.kind)) [
    | inl k ↦
        rw (e, k, recounted)
          (update_one-IsStored (λ d. record d { subscribers_count = n }) conv t (λ d. refl) st)
    | inr k ↦ rw (e, k, recounted) st
  ]

  -- The owner is replaced where the flag says so.
  pub handed-IsStored :
      (conv : Conversation) (changes : Bool) (uid : ℕ) (t t' : C)
      → IsStored conv t
      → t' ≡ (if changes then update_owner c conv.id uid t else t)
      → IsStored (if changes then record conv { owner_id = uid } else conv) t'
  unfolding update_owner
  handed-IsStored conv true uid t t' st e =
      rw e (update_one-IsStored (λ d. record d { owner_id = uid }) conv t (λ d. refl) st)
  handed-IsStored conv false uid t t' st e = rw e st
