-- ===== src/SortedMap/Laws.antt =====
-- The laws of the map: reading back a write, the order of the keys, and the number of entries.
use peerboot_cpp.Prelude.{◌+◌, true, ◌≡◌, refl, [], ◌∷◌, none, some, arith, length, if◌then◌else◌}
use peerboot_cpp.Text.{Str, str_eq, str_lt}
use peerboot_cpp.Text.Order.{str_eq_iff, str_eq_refl, str_lt_irrefl, str_lt_trans, str_lt_total}
use peerboot_cpp.SortedMap.{SortedMap, find, insert, Above, IsSorted}

module _ {ℓ} {V : Type ℓ} where
  pub find-insert :
      (k j : Str) (v : V) (m : SortedMap V)
      → find j (insert k v m) ≡ (if str_eq k j then some v else find j m)
  unfolding find insert
  find-insert k j v [] = refl
  find-insert k j v ((i, w) ∷ m) =
      ground (arith, str_eq_iff k j, str_eq_iff i k, str_eq_iff i j, find-insert k j v m)

  pub find-insert_self : (k : Str) (v : V) (m : SortedMap V) → find k (insert k v m) ≡ some v
  find-insert_self k v m = simp (find-insert, str_eq_refl)

  pub Above-trans : (i k : Str) (m : SortedMap V) → str_lt i k ≡ true → Above k m → Above i m
  Above-trans i k [] h a = tt
  Above-trans i k ((j, v) ∷ m) h a = (str_lt_trans i k j h a.0, Above-trans i k m h a.1)

  insert-Above :
      (i k : Str) (v : V) (m : SortedMap V) → str_lt i k ≡ true → Above i m → Above i (insert k v m)
  unfolding insert
  insert-Above i k v [] h a = (h, tt)
  insert-Above i k v ((j, w) ∷ m) h a = ground (arith, insert-Above i k v m h a.1)

  -- A write keeps the keys in order.
  pub insert-IsSorted : (k : Str) (v : V) (m : SortedMap V) → IsSorted m → IsSorted (insert k v m)
  unfolding insert
  insert-IsSorted k v [] s = (tt, tt)
  insert-IsSorted k v ((j, w) ∷ m) s = ground (
    arith,
    str_eq_iff j k,
    insert-IsSorted k v m s.1,
    str_lt_total k j,
    insert-Above j k v m,
    Above-trans k j m,
    s.0,
    str_eq_iff k j,
  )

  -- A key above all of a sorted map's keys is not in the map.
  pub find-Above : (k : Str) (m : SortedMap V) → Above k m → find k m ≡ none
  unfolding find
  find-Above k [] a = refl
  find-Above k ((j, v) ∷ m) a =
      ground (arith, a.0, str_eq_iff j k, str_lt_irrefl k, find-Above k m a.1)

  -- A write adds an entry exactly when the key was not there.
  pub length-insert :
      (k : Str) (v : V) (m : SortedMap V)
      → IsSorted m
      → length (insert k v m) ≡ length m + (elim (find k m) [ none ↦ 1 | some _ ↦ 0 ])
  unfolding insert find
  length-insert k v [] s = refl
  length-insert k v ((j, w) ∷ m) s =
      ground (arith, length-insert k v m s.1, find-Above k m, Above-trans k j m, s.0)
