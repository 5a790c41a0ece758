-- ===== src/Network/Flooding/Covers.antt =====
-- Where the items of a flooding come.
use peerboot_cpp.Prelude.{
  ℕ, zero, suc, ◌≡◌, sym, ◌∙◌, Bool, true, false, List, [], ◌∷◌, some, get_elem?, remove, ◌⊎◌, inl,
  inr, Nat-cases, get_elem?-set_ne, get_elem?-set_self, subst,
}
use mathlib.Core.List.{Memᴰ}
use mathlib.Core.List.Memᴰ
use peerboot_cpp.Network.Flooding.{
  Flooding, reached, Moves, moves, Run, rests, goes_on, Walk, here, along,
}

Memᴰ-remove :
    {A : Type 0} (x y : A) (xs : List A) (i : ℕ)
    → Memᴰ x xs
    → get_elem? xs i ≡ some y
    → (x ≡ y) ⊎ Memᴰ x (remove xs i)
Memᴰ-remove x y [] i m h = absurd (cc h)
Memᴰ-remove x y (z ∷ xs) zero m h = elim (Memᴰ.cases_cons m) [
  | inl e ↦ inl (cc (e, h))
  | inr later ↦ inr later
]
Memᴰ-remove x y (z ∷ xs) (suc i) m h = elim (Memᴰ.cases_cons m) [
  | inl e ↦ inr (Memᴰ.head e)
  | inr later ↦ elim (Memᴰ-remove x y xs i later h) [
    | inl e ↦ inl e
    | inr rest ↦ inr (Memᴰ.tail rest)
  ]
]

module _ (links : ℕ → List ℕ) where
  abbrev pub Has : Flooding → ℕ → Type 0
  Has s k = get_elem? s.has k ≡ some true

  -- Behind each link of a node that has the item is a node that has it too, or an item is under way to it.
  abbrev pub Covered : Flooding → Type 0
  Covered s = (j l : ℕ) → Has s j → Memᴰ l (links j) → Has s l ⊎ Memᴰ l s.coming

  -- A node that has the item keeps it, and the node that is reached has it.
  reached-Has :
      (s : Flooding) (i k l : ℕ) (b : Bool)
      → get_elem? s.has k ≡ some b
      → Has s l ⊎ (l ≡ k)
      → Has (reached links s i k b) l
  reached-Has s i k l true h (inl e) = e
  reached-Has s i k l true h (inr e) = rw e h
  reached-Has s i k l false h (inr e) = rw e (get_elem?-set_self s.has k true false h)
  reached-Has s i k l false h (inl e) = elim (Nat-cases k l) [
    | inl same ↦ cc (e, h, same)
    | inr other ↦ get_elem?-set_ne s.has k l true other ∙ e
  ]

  -- What was under way still is, but for the item that arrived.
  reached-coming :
      (s : Flooding) (i k l : ℕ) (b : Bool)
      → get_elem? s.coming i ≡ some k
      → Memᴰ l s.coming
      → (l ≡ k) ⊎ Memᴰ l (reached links s i k b).coming
  reached-coming s i k l true e m = Memᴰ-remove l k s.coming i m e
  reached-coming s i k l false e m = elim (Memᴰ-remove l k s.coming i m e) [
    | inl p ↦ inl p
    | inr rest ↦ inr (Memᴰ.append_left (links k) rest)
  ]

  -- A node that has the item afterwards had it before, or all its links have been served.
  reached-news :
      (s : Flooding) (i k j : ℕ) (b : Bool)
      → get_elem? s.has k ≡ some b
      → Has (reached links s i k b) j
      → Has s j ⊎ ((l : ℕ) → Memᴰ l (links j) → Memᴰ l (reached links s i k b).coming)
  reached-news s i k j true h e = inl e
  reached-news s i k j false h e = elim (Nat-cases k j) [
    | inl same ↦ inr λ l m. Memᴰ.append_right (remove s.coming i) (rw same m)
    | inr other ↦ inl (sym (get_elem?-set_ne s.has k j true other) ∙ e)
  ]

  Moves-Covered : (s t : Flooding) → Moves links s t → Covered s → Covered t
  Moves-Covered s _ (moves i k b e h) c j l has m = elim (reached-news s i k j b h has) [
    | inr served ↦ inr (served l m)
    | inl before ↦ elim (c j l before m) [
      | inl p ↦ inl (reached-Has s i k l b h (inl p))
      | inr under_way ↦ elim (reached-coming s i k l b e under_way) [
        | inl p ↦ inl (reached-Has s i k l b h (inr p))
        | inr still ↦ inr still
      ]
    ]
  ]

  Moves-Has : (s t : Flooding) (j : ℕ) → Moves links s t → Has s j → Has t j
  Moves-Has s _ j (moves i k b e h) p = reached-Has s i k j b h (inl p)

  pub Run-Covered : (s : Flooding) (n : ℕ) (t : Flooding) → Run links s n t → Covered s → Covered t
  Run-Covered s _ _ rests c = c
  Run-Covered s _ _ (goes_on {n} {t = u} {u = t} run step) c =
      Moves-Covered u t step (Run-Covered s n u run c)

  pub Run-Has : (s : Flooding) (n : ℕ) (t : Flooding) (j : ℕ) → Run links s n t → Has s j → Has t j
  Run-Has s _ _ j rests p = p
  Run-Has s _ _ j (goes_on {n} {t = u} {u = t} run step) p =
      Moves-Has u t j step (Run-Has s n u j run p)

  -- When nothing is under way any more, every node that a walk from a node with the item reaches has it.
  pub Covered-Walk :
      (s : Flooding) (j k : ℕ) → Covered s → s.coming ≡ [] → Has s j → Walk links j k → Has s k
  Covered-Walk s j _ c quiet p here = p
  Covered-Walk s j _ c quiet p (along {k} {l} walk m) =
      elim (c k l (Covered-Walk s j k c quiet p walk) m) [
        | inl q ↦ q
        | inr under_way ↦ absurd (Memᴰ.not-nil (subst (Memᴰ l) quiet under_way))
      ]
