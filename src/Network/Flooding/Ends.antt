-- ===== src/Network/Flooding/Ends.antt =====
-- How many items a flooding needs.
use peerboot_cpp.Prelude.{
  ℕ, zero, suc, ◌+◌, ◌≤◌, ◌≡◌, Bool, true, false, List, [], ◌∷◌, some, get_elem?, set, remove,
  arith, length, length-append,
}
use peerboot_cpp.Network.Flooding.{Flooding, Moves, moves, Run, rests, goes_on}

pub length-remove :
    {A : Type 0} (xs : List A) (i : ℕ) (x : A)
    → get_elem? xs i ≡ some x
    → suc (length (remove xs i)) ≡ length xs
length-remove [] i x h = absurd (cc h)
length-remove (y ∷ xs) zero x h = omega arith
length-remove (y ∷ xs) (suc i) x h = omega (arith, length-remove xs i x h)

module _ (links : ℕ → List ℕ) where
  -- The links of the nodes that do not have the item; the list is that of the nodes from `j` on.
  abbrev pub unused : ℕ → List Bool → ℕ
  unused j [] = 0
  unused j (true ∷ has) = unused (suc j) has
  unused j (false ∷ has) = length (links j) + unused (suc j) has

  -- All links of so many nodes, from `j` on
  abbrev pub link_count : ℕ → ℕ → ℕ
  link_count j zero = 0
  link_count j (suc n) = length (links j) + link_count (suc j) n

  unused-le : (j : ℕ) (has : List Bool) → unused j has ≤ link_count j (length has)
  unused-le j [] = omega arith
  unused-le j (true ∷ has) = omega (arith, unused-le (suc j) has)
  unused-le j (false ∷ has) = omega (arith, unused-le (suc j) has)

  -- The links of a node that has the item are not among the unused.
  pub unused-le_without :
      (j k l : ℕ) (has : List Bool)
      → l ≡ j + k
      → get_elem? has k ≡ some true
      → length (links l) + unused j has ≤ link_count j (length has)
  unused-le_without j k l [] e h = absurd (cc h)
  unused-le_without j zero l (true ∷ has) e h =
      let p : l ≡ j = omega (arith, e) in rw p (omega (arith, unused-le (suc j) has))
  unused-le_without j zero l (false ∷ has) e h = absurd (cc h)
  unused-le_without j (suc k) l (true ∷ has) e h =
      omega (arith, unused-le_without (suc j) k l has (omega (arith, e)) h)
  unused-le_without j (suc k) l (false ∷ has) e h =
      omega (arith, unused-le_without (suc j) k l has (omega (arith, e)) h)

  -- The items under way, and those that may still be sent
  abbrev pub weight : Flooding → ℕ
  weight s = length s.coming + unused 0 s.has

  unused-set :
      (j k l : ℕ) (has : List Bool)
      → l ≡ j + k
      → get_elem? has k ≡ some false
      → unused j has ≡ length (links l) + unused j (set has k true)
  unused-set j k l [] e h = absurd (cc h)
  unused-set j zero l (false ∷ has) e h = let p : l ≡ j = omega (arith, e) in rw p (omega arith)
  unused-set j zero l (true ∷ has) e h = absurd (cc h)
  unused-set j (suc k) l (true ∷ has) e h = unused-set (suc j) k l has (omega (arith, e)) h
  unused-set j (suc k) l (false ∷ has) e h =
      omega (arith, unused-set (suc j) k l has (omega (arith, e)) h)

  pub Moves-weight : (s t : Flooding) → Moves links s t → suc (weight t) ≡ weight s
  Moves-weight s t (moves i k true e h) = omega (arith, length-remove s.coming i k e)
  Moves-weight s t (moves i k false e h) = omega (
    arith,
    length-remove s.coming i k e,
    length-append (remove s.coming i) (links k),
    unused-set 0 k k s.has (omega arith) h,
  )

  -- Every step uses up one item.
  pub Run-weight : (s : Flooding) (n : ℕ) (t : Flooding) → Run links s n t → n + weight t ≡ weight s
  Run-weight s _ _ rests = omega arith
  Run-weight s _ _ (goes_on {n} {t = u} {u = t} run step) =
      omega (arith, Run-weight s n u run, Moves-weight u t step)
