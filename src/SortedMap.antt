-- ===== src/SortedMap.antt =====
-- std::map with string keys, as the list of its entries in the order of the keys.
pub mod Laws
use peerboot_cpp.Prelude.{Bool, true, false, ◌≡◌, List, [], ◌∷◌, Option, none, some, if◌then◌else◌}
use peerboot_cpp.Text.{Str, str_eq, str_lt}

abbrev pub SortedMap {ℓ} : Type ℓ → Type ℓ
SortedMap V = List (Str × V)

module _ {ℓ} {V : Type ℓ} where
  -- m.find(k), with the value that it points at; `none` is end()
  unfoldable pub find : Str → SortedMap V → Option V
  find k [] = none
  find k ((j, v) ∷ m) = if str_eq j k then some v else find k m

  -- m[k] = v
  unfoldable pub insert : Str → V → SortedMap V → SortedMap V
  insert k v [] = (k, v) ∷ []
  insert k v ((j, w) ∷ m) =
      if str_eq j k
      then (k, v) ∷ m
      else if str_lt k j
      then (k, v) ∷ (j, w) ∷ m
      else (j, w) ∷ insert k v m

  -- Every key lies above `k`.
  abbrev pub Above : Str → SortedMap V → Type 0
  Above k [] = Unit
  Above k ((j, v) ∷ m) = (str_lt k j ≡ true) × Above k m

  -- The keys strictly ascend.
  abbrev pub IsSorted : SortedMap V → Type 0
  IsSorted [] = Unit
  IsSorted ((j, v) ∷ m) = Above j m × IsSorted m

  abbrev pub values : SortedMap V → List V
  values [] = []
  values ((k, v) ∷ m) = v ∷ values m
