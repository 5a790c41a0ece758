-- ===== src/Text/Order.antt =====
-- The tests on byte strings as relations.
use peerboot_cpp.Prelude.{◌≡◌, refl, ◌↔◌, true, false, [], ◌∷◌, arith}
use peerboot_cpp.Text.{Str, str_eq, str_lt}

pub str_eq_sound : (s t : Str) → str_eq s t ≡ true → s ≡ t
unfolding str_eq
str_eq_sound [] [] h = refl
str_eq_sound [] (y ∷ t) h = cc
str_eq_sound (x ∷ s) [] h = cc
str_eq_sound (x ∷ s) (y ∷ t) h = ground (arith, str_eq_sound s t)

pub str_eq_refl : (s : Str) → str_eq s s ≡ true
unfolding str_eq
str_eq_refl [] = refl
str_eq_refl (x ∷ s) = ground (arith, str_eq_refl s)

pub str_eq_iff : (s t : Str) → (str_eq s t ≡ true) ↔ (s ≡ t)
str_eq_iff s t = (str_eq_sound s t, λ e. rw e (str_eq_refl t))

pub str_lt_irrefl : (s : Str) → str_lt s s ≡ false
unfolding str_lt
str_lt_irrefl [] = refl
str_lt_irrefl (x ∷ s) = ground (arith, str_lt_irrefl s)

pub str_lt_trans : (s t u : Str) → str_lt s t ≡ true → str_lt t u ≡ true → str_lt s u ≡ true
unfolding str_lt
str_lt_trans [] [] u h k = cc
str_lt_trans [] (y ∷ t) [] h k = cc
str_lt_trans [] (y ∷ t) (z ∷ u) h k = refl
str_lt_trans (x ∷ s) [] u h k = cc
str_lt_trans (x ∷ s) (y ∷ t) [] h k = cc
str_lt_trans (x ∷ s) (y ∷ t) (z ∷ u) h k = ground (arith, str_lt_trans s t u)

pub str_lt_total : (s t : Str) → str_lt s t ≡ false → str_eq s t ≡ false → str_lt t s ≡ true
unfolding str_lt str_eq
str_lt_total [] [] h k = cc
str_lt_total [] (y ∷ t) h k = cc
str_lt_total (x ∷ s) [] h k = refl
str_lt_total (x ∷ s) (y ∷ t) h k = ground (arith, str_lt_total s t)
