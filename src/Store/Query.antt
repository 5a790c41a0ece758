-- ===== src/Store/Query.antt =====
-- What a query returns.
use mathlib.Core.List.{Mem, mem-cons_self, mem-cons_of_mem}
use peerboot_cpp.Prelude.{
  Bool, true, false, ◌≡◌, List, [], ◌∷◌, some, arith, if◌then◌else◌, All, All-select, All-map,
  All-zip, select-passes, select, Bool-cases, Option-cases, inl, inr,
}
use peerboot_cpp.Text.{Str, str_eq}
use peerboot_cpp.Text.Order.{str_eq_iff}
use peerboot_cpp.SortedMap.{find, IsSorted, values}
use peerboot_cpp.SortedMap.Laws.{find-Above}
use peerboot_cpp.Store.{Store, ServiceStore, StoredPeer, is_present, find_peer, query}
use peerboot_cpp.Store.WellFormed.{Filed, IsWellFormed, Services-find}

abbrev Answers : Str → ServiceStore → StoredPeer → Type 0
Answers s m p = (p.service ≡ s) × (find p.endpoint m ≡ some p)

values-Answers :
    (s : Str) (m : ServiceStore) → IsSorted m → Filed s m → All (Answers s m) (values m)
unfolding find
values-Answers s [] h f = tt
values-Answers s ((j, p) ∷ m) h f = (
  ground (arith, f.0, f.1, str_eq_iff j p.endpoint),
  All-map (Answers s m) (Answers s ((j, p) ∷ m)) (values m) later (values-Answers s m h.1 f.2),
)
  where
    later : (q : StoredPeer) → Answers s m q → Answers s ((j, p) ∷ m) q
    later q a = ground (arith, a.0, a.1, str_eq_iff j q.endpoint, find-Above j m h.0)

-- In a well-formed store, each answer to a query for a service is a stored entry of that service, found under its own
-- endpoint, and not marked as removed.
pub query_sound :
    (store : Store) (s : Str)
    → IsWellFormed store
    → All
        (λ p. (p.service ≡ s) × (find_peer store s p.endpoint ≡ some p) × (p.is_removed ≡ false))
        (query store s)
unfolding query find_peer
query_sound store s w = elim (Option-cases (find s store)) [
  | inl e ↦ rw (e, query) tt
  | inr (m, e) ↦ rw (e, query, find_peer) (sound_at m (Services-find s store m w.services e))
]
  where
    sound_at :
        (m : ServiceStore)
        → IsSorted m × Filed s m
        → All
            (λ p. (p.service ≡ s) × (find p.endpoint m ≡ some p) × (p.is_removed ≡ false))
            (select is_present (values m))
    sound_at m v =
        All-zip (Answers s m) (λ p. is_present p ≡ true) _ (select is_present (values m))
          (λ p a b. (a.0, a.1, ground arith))
          (All-select (Answers s m) is_present (values m) (values-Answers s m v.0 v.1))
          (select-passes is_present (values m))

Mem-keep :
    (b : Bool) (p q : StoredPeer) (xs : List StoredPeer)
    → Mem p xs
    → Mem p (if b then q ∷ xs else xs)
Mem-keep true p q xs h = mem-cons_of_mem q h
Mem-keep false p q xs h = h

Mem-head :
    (b : Bool) (p q : StoredPeer) (xs : List StoredPeer)
    → b ≡ true
    → q ≡ p
    → Mem p (if b then q ∷ xs else xs)
Mem-head true p q xs h e = rw e mem-cons_self
Mem-head false p q xs h e = cc

values-complete :
    (e : Str) (p : StoredPeer) (m : ServiceStore)
    → find e m ≡ some p
    → is_present p ≡ true
    → Mem p (select is_present (values m))
unfolding find
values-complete e p [] h k = cc
values-complete e p ((j, q) ∷ m) h k = elim (Bool-cases (str_eq j e)) [
  | inl same ↦ Mem-head (is_present q) p q _ (ground arith) (ground arith)
  | inr other ↦ Mem-keep (is_present q) p q _ (values-complete e p m (rw other at h) k)
]

-- Every stored entry of the service that is not marked as removed is among the answers.
pub query_complete :
    (store : Store) (s e : Str) (p : StoredPeer)
    → find_peer store s e ≡ some p
    → p.is_removed ≡ false
    → Mem p (query store s)
unfolding query find_peer
query_complete store s e p h k = elim (Option-cases (find s store)) [
  | inl n ↦ ground arith
  | inr (m, n) ↦ rw (n, query) (values-complete e p m (rw (n, find_peer) at h) (ground arith))
]
