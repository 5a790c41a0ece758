-- ===== src/Text/Cut.antt =====
-- Cutting a text at a byte.
use peerboot_cpp.Prelude.{ℕ, ◌≡◌, refl, false, [], ◌∷◌, ◌++◌, none, some, arith, ◌==◌, All}
use peerboot_cpp.Text.{Str, split_at}

-- No byte of the text is `c`.
abbrev pub Without : ℕ → Str → Type 0
Without c = All (λ x. (x == c) ≡ false)

pub split_at-Without : (c : ℕ) (s : Str) → Without c s → split_at c s ≡ none
unfolding split_at
split_at-Without c [] h = refl
split_at-Without c (x ∷ s) h = ground (arith, h.0, split_at-Without c s h.1)

pub split_at-append :
    (c : ℕ) (before after : Str)
    → Without c before
    → split_at c (before ++ c ∷ after) ≡ some (before, after)
unfolding split_at
split_at-append c [] after h = ground arith
split_at-append c (x ∷ before) after h = ground (arith, h.0, split_at-append c before after h.1)
