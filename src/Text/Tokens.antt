-- ===== src/Text/Tokens.antt =====
-- Reading words from a std::stringstream by `>>`.
use mathlib.Core.List.{append_assoc, append-nil}
use peerboot_cpp.Prelude.{ℕ, ◌≡◌, ◌∙◌, true, false, List, [], ◌∷◌, ◌++◌, if◌then◌else◌, All}
use peerboot_cpp.Text.{Str, is_space}

-- A word that has ended is put before the words that follow; an empty one is none.
abbrev flush : Str → List Str → List Str
flush [] words = words
flush (c ∷ s) words = (c ∷ s) ∷ words

unfoldable pub tokens_from : Str → Str → List Str
tokens_from word [] = flush word []
tokens_from word (c ∷ s) =
    let ended = flush word (tokens_from [] s) in
    let longer = tokens_from (word ++ c ∷ []) s in if is_space c then ended else longer

-- `while (ss >> buf) tokens.push_back(buf)`
unfoldable pub tokens : Str → List Str
unfolding tokens_from is_space
tokens s = tokens_from [] s

abbrev pub NoSpace : Str → Type 0
NoSpace = All (λ c. is_space c ≡ false)

-- A word is not empty and has no white space.
abbrev pub IsWord : Str → Type 0
IsWord [] = ⊥
IsWord (c ∷ s) = NoSpace (c ∷ s)

tokens_from-word :
    (w s rest : Str) (c : ℕ)
    → NoSpace s
    → is_space c ≡ true
    → tokens_from w (s ++ c ∷ rest) ≡ flush (w ++ s) (tokens_from [] rest)
unfolding tokens_from
tokens_from-word w [] rest c h k = rw (k, append-nil)
tokens_from-word w (x ∷ s) rest c h k =
    rw h.0 (tokens_from-word (w ++ x ∷ []) s rest c h.1 k ∙ rw append_assoc)

tokens_from-last : (w s : Str) → NoSpace s → tokens_from w s ≡ flush (w ++ s) []
unfolding tokens_from
tokens_from-last w [] h = rw append-nil
tokens_from-last w (x ∷ s) h = rw h.0 (tokens_from-last (w ++ x ∷ []) s h.1 ∙ rw append_assoc)

pub tokens-word :
    (w rest : Str) (c : ℕ) → IsWord w → is_space c ≡ true → tokens (w ++ c ∷ rest) ≡ w ∷ tokens rest
unfolding tokens
tokens-word [] rest c h k = absurd h
tokens-word (x ∷ s) rest c h k = tokens_from-word [] (x ∷ s) rest c h k

pub tokens-last : (w : Str) → IsWord w → tokens w ≡ w ∷ []
unfolding tokens
tokens-last [] h = absurd h
tokens-last (x ∷ s) h = tokens_from-last [] (x ∷ s) h
