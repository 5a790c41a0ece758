-- ===== src/Store/Count.antt =====
-- The number of stored entries.
use peerboot_cpp.Prelude.{ℕ, ◌+◌, Bool, ◌≡◌, refl, [], ◌∷◌, Option, none, some, arith, length}
use peerboot_cpp.Text.{Str}
use peerboot_cpp.SortedMap.{find, insert, IsSorted}
use peerboot_cpp.SortedMap.Laws.{length-insert, find-Above, Above-trans, find-insert_self}
use peerboot_cpp.Store.{
  Store, ServiceStore, StoredPeer, at_service, find_peer, with_service, add_peer, count,
  update_found, find_and_update,
}
use peerboot_cpp.Store.WellFormed.{
  IsWellFormed, with_service-IsWellFormed, at_service-IsServiceStore,
}

count-insert :
    (s : Str) (m : ServiceStore) (store : Store)
    → IsSorted store
    → count (insert s m store) + length (at_service s store) ≡ count store + length m
unfolding count insert find
count-insert s m [] h = omega arith
count-insert s m ((j, n) ∷ store) h =
    ground (arith, count-insert s m store h.1, find-Above s store, Above-trans s j store, h.0)

abbrev pub one_if_none : Option StoredPeer → ℕ
one_if_none none = 1
one_if_none (some p) = 0

count-with_service :
    (s : Str) (store : Store) → IsSorted store → count (with_service s store) ≡ count store
unfolding with_service
count-with_service s store h = ground (arith, count-insert s [] store h)

find-at_service :
    (store : Store) (s e : Str) → find e (at_service s (with_service s store)) ≡ find_peer store s e
unfolding with_service find_peer find
find-at_service store s e = ground (arith, find-insert_self s [] store)

count-add_peer :
    (store : Store) (p : StoredPeer)
    → IsWellFormed store
    → count (add_peer store p) ≡ count store + one_if_none (find_peer store p.service p.endpoint)
unfolding add_peer
count-add_peer store p w =
    let present = with_service p.service store in
    let w' = with_service-IsWellFormed p.service store w in
    ground (
      arith,
      count-insert p.service (insert p.endpoint p (at_service p.service present)) present w'.sorted,
      length-insert p.endpoint p (at_service p.service present)
          (at_service-IsServiceStore p.service present w'.services).0,
      count-with_service p.service store w.sorted,
      find-at_service store p.service p.endpoint,
    )

-- In a well-formed store an update adds one to the number of entries if the peer was unknown, and else nothing.
pub count-find_and_update :
    (now : ℕ) (store : Store) (s e : Str) (is_removed : Bool) (last_seen : ℕ)
    → IsWellFormed store
    → count (find_and_update now store s e is_removed last_seen).0
      ≡ count store + one_if_none (find_peer store s e)
unfolding find_and_update
count-find_and_update now store s e is_removed last_seen w = updated (find_peer store s e) refl
  where
    new_peer : StoredPeer
    new_peer = record {
      service = s;
      endpoint = e;
      added_time = now;
      last_seen = last_seen;
      is_removed = is_removed;
    }

    updated :
        (o : Option StoredPeer)
        → find_peer store s e ≡ o
        → count (update_found store new_peer o).0 ≡ count store + one_if_none o
    updated none h = rw h at (count-add_peer store new_peer w)
    updated (some old) h = ground (
      arith,
      h,
      count-add_peer store new_peer w,
      count-add_peer store (record new_peer { added_time = old.added_time }) w,
    )
