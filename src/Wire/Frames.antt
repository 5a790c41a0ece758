-- ===== src/Wire/Frames.antt =====
-- Cutting a stream of bytes into lines.
use peerboot_cpp.Prelude.{
  ◌≡◌, refl, ◌∙◌, List, [], ◌∷◌, ◌++◌, none, some, arith, ◌==◌, if◌then◌else◌, Bool-cases,
  Option-cases, inl, inr,
}
use mathlib.Core.List.{append_assoc, append-nil}
use peerboot_cpp.Text.{Str, split_at}

-- The complete lines of a stream, and what stands behind the last of them: the description of the
-- framing, which takes one byte after the other. `line` is the line so far.
abbrev pub lines_from : Str → Str → List Str
lines_from line [] = []
lines_from line (c ∷ s) =
    let ended = line ∷ lines_from [] s in
    let longer = lines_from (line ++ c ∷ []) s in if c == b'\n' then ended else longer

abbrev pub rest_from : Str → Str → Str
rest_from line [] = line
rest_from line (c ∷ s) =
    let ended = rest_from [] s in
    let longer = rest_from (line ++ c ∷ []) s in if c == b'\n' then ended else longer

-- Cutting does not depend on how the stream is divided into chunks.
pub lines_from-append :
    (line s t : Str)
    → lines_from line (s ++ t) ≡ lines_from line s ++ lines_from (rest_from line s) t
lines_from-append line [] t = refl
lines_from-append line (c ∷ s) t =
    ground (arith, lines_from-append [] s t, lines_from-append (line ++ c ∷ []) s t)

pub rest_from-append : (line s t : Str) → rest_from line (s ++ t) ≡ rest_from (rest_from line s) t
rest_from-append line [] t = refl
rest_from-append line (c ∷ s) t =
    ground (arith, rest_from-append [] s t, rest_from-append (line ++ c ∷ []) s t)

-- One cut at the first newline.
pub cut_none :
    (line s : Str)
    → split_at b'\n' s ≡ none
    → (lines_from line s ≡ []) × (rest_from line s ≡ line ++ s)
unfolding split_at
cut_none line [] h = (refl, rw append-nil)
cut_none line (c ∷ s) h = elim (Bool-cases (c == b'\n')) [
  | inl ended ↦ ground arith
  | inr more ↦
      let ih = cut_none (line ++ c ∷ []) s (ground arith) in
      rw (more) (ih.0, ih.1 ∙ append_assoc line (c ∷ []) s)
]

pub cut_some :
    (line s before after : Str)
    → split_at b'\n' s ≡ some (before, after)
    → (lines_from line s ≡ (line ++ before) ∷ lines_from [] after)
      × (rest_from line s ≡ rest_from [] after)
unfolding split_at
cut_some line [] before after h = cc
cut_some line (c ∷ s) before after h = elim (Bool-cases (c == b'\n')) [
  | inl ended ↦ ground (arith, append-nil line)
  | inr more ↦ elim (Option-cases (split_at b'\n' s)) [
    | inl e ↦ ground arith
    | inr ((before', after'), e) ↦
        let ih = cut_some (line ++ c ∷ []) s before' after' e in
        ground (arith, ih.0, ih.1, append_assoc line (c ∷ []) before')
  ]
]
