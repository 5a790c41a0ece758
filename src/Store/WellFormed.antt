-- ===== src/Store/WellFormed.antt =====
-- The shape that the store keeps: keys in order, and every entry filed under its own names.
use peerboot_cpp.Prelude.{
  ℕ, Bool, ◌≡◌, refl, [], ◌∷◌, Option, none, some, arith, Bool-cases, Option-cases, inl, inr,
}
use peerboot_cpp.Text.{Str, str_eq}
use peerboot_cpp.Text.Order.{str_eq_iff}
use peerboot_cpp.SortedMap.{find, insert, IsSorted}
use peerboot_cpp.SortedMap.Laws.{insert-IsSorted}
use peerboot_cpp.Store.{
  Store, ServiceStore, StoredPeer, empty, at_service, find_peer, with_service, add_peer,
  update_found, find_and_update,
}

-- Each entry stands under its endpoint and belongs to the service.
abbrev pub Filed : Str → ServiceStore → Type 0
Filed s [] = Unit
Filed s ((e, p) ∷ m) = (p.service ≡ s) × (p.endpoint ≡ e) × Filed s m

abbrev pub IsServiceStore : Str → ServiceStore → Type 0
IsServiceStore s m = IsSorted m × Filed s m

abbrev pub Services : Store → Type 0
Services [] = Unit
Services ((s, m) ∷ store) = IsServiceStore s m × Services store

pub record IsWellFormed (store : Store) : Type 0 where
  pub sorted : IsSorted store
  pub services : Services store

Filed-insert :
    (s : Str) (p : StoredPeer) (m : ServiceStore)
    → p.service ≡ s
    → Filed s m
    → Filed s (insert p.endpoint p m)
unfolding insert
Filed-insert s p [] e h = (e, refl, tt)
Filed-insert s p ((j, q) ∷ m) e h = ground (arith, Filed-insert s p m e h.2)

Services-insert :
    (s : Str) (m : ServiceStore) (store : Store)
    → IsServiceStore s m
    → Services store
    → Services (insert s m store)
unfolding insert
Services-insert s m [] v h = (v, tt)
Services-insert s m ((j, n) ∷ store) v h = ground (arith, Services-insert s m store v h.1)

pub Services-find :
    (s : Str) (store : Store) (m : ServiceStore)
    → Services store
    → find s store ≡ some m
    → IsServiceStore s m
unfolding find
Services-find s [] m h e = cc
Services-find s ((j, n) ∷ store) m h e = elim (Bool-cases (str_eq j s)) [
  | inl same ↦ ground (arith, str_eq_iff j s, h.0)
  | inr other ↦ Services-find s store m h.1 (rw other at e)
]

pub at_service-IsServiceStore :
    (s : Str) (store : Store) → Services store → IsServiceStore s (at_service s store)
at_service-IsServiceStore s store h = elim (Option-cases (find s store)) [
  | inl e ↦ rw (e, at_service) (tt, tt)
  | inr (m, e) ↦ rw (e, at_service) (Services-find s store m h e)
]

pub with_service-IsWellFormed :
    (s : Str) (store : Store) → IsWellFormed store → IsWellFormed (with_service s store)
unfolding with_service
with_service-IsWellFormed s store w = elim (Option-cases (find s store)) [
  | inl e ↦
      rw (e, with_service)
        (record {
          sorted = insert-IsSorted s [] store w.sorted;
          services = Services-insert s [] store (tt, tt) w.services;
        })
  | inr (m, e) ↦ rw (e, with_service) w
]

insert-IsWellFormed :
    (s : Str) (m : ServiceStore) (store : Store)
    → IsServiceStore s m
    → IsWellFormed store
    → IsWellFormed (insert s m store)
insert-IsWellFormed s m store v w = record {
  sorted = insert-IsSorted s m store w.sorted;
  services = Services-insert s m store v w.services;
}

pub add_peer-IsWellFormed :
    (store : Store) (p : StoredPeer) → IsWellFormed store → IsWellFormed (add_peer store p)
unfolding add_peer
add_peer-IsWellFormed store p w =
    let w' = with_service-IsWellFormed p.service store w in
    let old = at_service-IsServiceStore p.service (with_service p.service store) w'.services in
    insert-IsWellFormed p.service _ (with_service p.service store)
      (insert-IsSorted p.endpoint p _ old.0, Filed-insert p.service p _ refl old.1) w'

-- Every update of a well-formed store gives a well-formed one: the keys of both levels are in order,
-- and each entry is filed under its own service and endpoint.
pub find_and_update-IsWellFormed :
    (now : ℕ) (store : Store) (s e : Str) (is_removed : Bool) (last_seen : ℕ)
    → IsWellFormed store
    → IsWellFormed (find_and_update now store s e is_removed last_seen).0
unfolding find_and_update
find_and_update-IsWellFormed now store s e is_removed last_seen w = updated (find_peer store s e)
  where
    new_peer : StoredPeer
    new_peer = record {
      service = s;
      endpoint = e;
      added_time = now;
      last_seen = last_seen;
      is_removed = is_removed;
    }

    updated : (o : Option StoredPeer) → IsWellFormed (update_found store new_peer o).0
    updated none = add_peer-IsWellFormed store new_peer w
    updated (some old) = ground (
      arith,
      add_peer-IsWellFormed store new_peer w,
      add_peer-IsWellFormed store (record new_peer { added_time = old.added_time }) w,
    )

pub IsWellFormed-empty : IsWellFormed empty
IsWellFormed-empty = record { sorted = tt; services = tt }
