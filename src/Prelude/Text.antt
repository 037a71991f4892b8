-- ===== src/Prelude/Text.antt =====
-- Texts as lists of code points, where the source joins and splits them.
use sama_server.Prelude.{
  ℕ, ◌≡◌, ◌↔◌, refl, Bool, true, false, ◌&&◌, List, [], ◌∷◌, ◌==◌, ==_refl, subst, any, arith,
  ==_iff,
}

abbrev pub Text : Type 0
Text = List ℕ

abbrev pub same_text : Text → Text → Bool
same_text [] [] = true
same_text [] (b ∷ t) = false
same_text (a ∷ s) [] = false
same_text (a ∷ s) (b ∷ t) = a == b && same_text s t

pub same_text_refl : (s : Text) → same_text s s ≡ true
same_text_refl [] = refl
same_text_refl (a ∷ s) = rw (==_refl a, same_text_refl s) refl

pub same_text_iff : (s t : Text) → (same_text s t ≡ true) ↔ (s ≡ t)
same_text_iff [] [] = ((λ _. refl), (λ _. refl))
same_text_iff [] (b ∷ t) = ((λ h. cc), (λ h. cc))
same_text_iff (a ∷ s) [] = ((λ h. cc), (λ h. cc))
same_text_iff (a ∷ s) (b ∷ t) = (
  λ h. cc ((==_iff a b).0 (ground arith), (same_text_iff s t).0 (ground arith)),
  λ h. subst (λ u. same_text (a ∷ s) u ≡ true) h (same_text_refl (a ∷ s)),
)

pub same_text_sym : (s t : Text) → same_text s t ≡ same_text t s
same_text_sym [] [] = refl
same_text_sym [] (b ∷ t) = refl
same_text_sym (a ∷ s) [] = refl
same_text_sym (a ∷ s) (b ∷ t) = ground (arith, same_text_sym s t)

-- `Array.prototype.includes` of texts
abbrev pub includes_text : Text → List Text → Bool
includes_text a xs = any (λ x. same_text x a) xs
