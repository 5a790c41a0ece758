-- ===== src/Network/Flooding.antt =====
-- What flooding promises, apart from its code: items travel along the links of a graph; a node that gets
-- its first item keeps it and sends one along each of its links, and every later item is absorbed.
pub mod Ends
pub mod Covers
use peerboot_cpp.Prelude.{
  ℕ, zero, suc, ◌≡◌, Bool, true, false, List, [], ◌∷◌, ◌++◌, some, get_elem?, set, remove,
}
use mathlib.Core.List.{Memᴰ}

-- Which nodes have the item, and the nodes that the items under way go to.
pub record Flooding : Type 0 where
  pub has : List Bool
  pub coming : List ℕ

module _ (links : ℕ → List ℕ) where
  -- An item reaches the node `k`, which had one before if `b` is true.
  abbrev pub reached : Flooding → ℕ → ℕ → Bool → Flooding
  reached s i k true = record { has = s.has; coming = remove s.coming i }
  reached s i k false = record { has = set s.has k true; coming = remove s.coming i ++ links k }

  -- Any of the items under way reaches its node.
  pub data Moves (s : Flooding) : Flooding → Type 0 where
    moves :
        (i k : ℕ) (b : Bool)
        → get_elem? s.coming i ≡ some k
        → get_elem? s.has k ≡ some b
        → Moves s (reached s i k b)

  -- So many items reach their nodes, in some order.
  pub data Run (s : Flooding) : ℕ → Flooding → Type 0 where
    rests : Run s 0 s
    goes_on : {n : ℕ} {t u : Flooding} → Run s n t → Moves t u → Run s (suc n) u

  -- The walks along links
  pub data Walk (j : ℕ) : ℕ → Type 0 where
    here : Walk j j
    along : {k l : ℕ} → Walk j k → Memᴰ l (links k) → Walk j l
