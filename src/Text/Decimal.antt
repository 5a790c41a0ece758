-- ===== src/Text/Decimal.antt =====
-- std::to_string of numbers below 10 ^ 10 and std::stoi, of the C++ library, and their round trip.
use native.Mathlib.Nat.{pow-suc}
use peerboot_cpp.Prelude.{
  ℕ, zero, suc, ◌+◌, ◌-◌, ◌*◌, ◌/◌, ◌%◌, ◌^◌, ◌<◌, ◌≡◌, refl, ap, ◌∙◌, Bool, true, false, ◌&&◌, [],
  ◌∷◌, ◌++◌, Option, none, some, arith, ltb, leb, ◌==◌, if◌then◌else◌, All, All-append, All-map,
  ◌≢◌, Bool-cases, inl, inr,
}
use peerboot_cpp.Prelude.Int.{ℤ, pos, negsuc}
use peerboot_cpp.Text.Tokens.{IsWord}
use peerboot_cpp.Text.{Str, is_space}

-- The decimal digits of a number below 10 ^ fuel.
unfoldable pub digits : ℕ → ℕ → Str
digits zero n = []
digits (suc fuel) n =
    let high = digits fuel (n / 10) in
    if ltb n 10 then (b'0' + n) ∷ [] else high ++ (b'0' + n % 10) ∷ []

-- std::to_string; the program's numbers have at most ten digits
unfoldable pub to_string : ℤ → Str
unfolding digits
to_string (pos n) = digits 10 n
to_string (negsuc n) = b'-' ∷ digits 10 (suc n)

abbrev pub is_digit : ℕ → Bool
is_digit c = leb b'0' c && leb c b'9'

-- The number that the leading digits spell, after `n`.
unfoldable pub read_digits : ℕ → Str → ℕ
read_digits n [] = n
read_digits n (c ∷ s) =
    let more = read_digits (n * 10 + (c - b'0')) s in if is_digit c then more else n

-- At least one digit is wanted.
unfoldable pub magnitude : Str → Option ℕ
unfolding read_digits
magnitude [] = none
magnitude (c ∷ s) = if is_digit c then some (read_digits 0 (c ∷ s)) else none

unfoldable pub skip_spaces : Str → Str
skip_spaces [] = []
skip_spaces (c ∷ s) = if is_space c then skip_spaces s else c ∷ s

abbrev pub in_int : Bool → Option ℕ → Option ℤ
in_int negative none = none
in_int true (some zero) = some (pos 0)
in_int true (some (suc n)) = if ltb n (2 ^ 31) then some (negsuc n) else none
in_int false (some n) = if ltb n (2 ^ 31) then some (pos n) else none

unfoldable pub signed : Str → Option ℤ
unfolding magnitude
signed [] = none
signed (c ∷ s) =
    if c == b'-'
    then in_int true (magnitude s)
    else if c == b'+'
    then in_int false (magnitude s)
    else in_int false (magnitude (c ∷ s))

-- std::stoi, which ignores what follows the digits; `none` is an exception, for want of a digit or
-- out of the range of `int`
unfoldable pub stoi : Str → Option ℤ
unfolding skip_spaces signed is_space
stoi s = signed (skip_spaces s)

abbrev pub AllDigits : Str → Type 0
AllDigits = All (λ c. is_digit c ≡ true)

pub digits-AllDigits : (fuel n : ℕ) → AllDigits (digits fuel n)
unfolding digits
digits-AllDigits zero n = tt
digits-AllDigits (suc fuel) n = elim (Bool-cases (ltb n 10)) [
  | inl small ↦ rw (small) (ground arith, tt)
  | inr large ↦
      rw (large)
        (All-append _ (digits fuel (n / 10)) _ (digits-AllDigits fuel (n / 10)) (ground arith, tt))
]

read_digits-append :
    (n : ℕ) (s t : Str) → AllDigits s → read_digits n (s ++ t) ≡ read_digits (read_digits n s) t
unfolding read_digits
read_digits-append n [] t h = refl
read_digits-append n (c ∷ s) t h = rw h.0 (read_digits-append (n * 10 + (c - b'0')) s t h.1)

tenth-lt : (fuel n : ℕ) → n < 10 ^ suc fuel → n / 10 < 10 ^ fuel
tenth-lt fuel n h = omega (arith, pow-suc 10 fuel)

read_digits-digits : (fuel n : ℕ) → n < 10 ^ fuel → read_digits 0 (digits fuel n) ≡ n
unfolding digits read_digits
read_digits-digits zero n h = omega arith
read_digits-digits (suc fuel) n h = elim (Bool-cases (ltb n 10)) [
  | inl small ↦ ground arith
  | inr large ↦ rw large (
      read_digits-append 0 (digits fuel (n / 10)) _ (digits-AllDigits fuel (n / 10))
      ∙ rw (read_digits-digits fuel (n / 10) (tenth-lt fuel n h)) (ground arith))
]

-- Whatever consists of at least one digit is read as the number that the digits spell.
stoi-AllDigits :
    (c : ℕ) (s : Str)
    → AllDigits (c ∷ s)
    → stoi (c ∷ s) ≡ in_int false (some (read_digits 0 (c ∷ s)))
unfolding stoi
stoi-AllDigits c s h = ground (arith, h.0)

stoi-nonempty : (s : Str) → s ≢ [] → AllDigits s → stoi s ≡ in_int false (some (read_digits 0 s))
stoi-nonempty [] e h = absurd (e refl)
stoi-nonempty (c ∷ s) e h = stoi-AllDigits c s h

append-ne-nil : (s : Str) (c : ℕ) → s ++ c ∷ [] ≢ []
append-ne-nil [] c = λ e. cc
append-ne-nil (x ∷ s) c = λ e. cc

digits-ne-nil : (fuel n : ℕ) → digits (suc fuel) n ≢ []
unfolding digits
digits-ne-nil fuel n = elim (Bool-cases (ltb n 10)) [
  | inl small ↦ rw small (λ e. cc)
  | inr large ↦ rw large (append-ne-nil (digits fuel (n / 10)) _)
]

-- A number of at most ten digits that is written and read back is itself below 2 ^ 31; std::stoi
-- refuses it from there on.
pub stoi-to_string :
    (n : ℕ)
    → n < 10 ^ 10
    → stoi (to_string (pos n)) ≡ (if ltb n (2 ^ 31) then some (pos n) else none)
unfolding to_string
stoi-to_string n h =
    stoi-nonempty (digits 10 n) (digits-ne-nil 9 n) (digits-AllDigits 10 n)
    ∙ ap (λ (m : ℕ). in_int false (some m)) (read_digits-digits 10 n h)

digit-NoSpace : (c : ℕ) → is_digit c ≡ true → is_space c ≡ false
unfolding is_space
digit-NoSpace c h = ground arith

AllDigits-IsWord : (s : Str) → s ≢ [] → AllDigits s → IsWord s
AllDigits-IsWord [] e h = absurd (e refl)
AllDigits-IsWord (c ∷ s) e h = All-map _ _ (c ∷ s) digit-NoSpace h

pub to_string-IsWord : (n : ℕ) → IsWord (to_string (pos n))
unfolding to_string
to_string-IsWord n = AllDigits-IsWord (digits 10 n) (digits-ne-nil 9 n) (digits-AllDigits 10 n)
