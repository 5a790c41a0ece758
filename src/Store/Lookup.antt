-- ===== src/Store/Lookup.antt =====
-- The store as a function from services and endpoints to entries.
use peerboot_cpp.Prelude.{
  ℕ, Bool, true, false, ◌&&◌, ◌≡◌, refl, ap, ◌∙◌, Option, none, some, arith, bool_ne, if◌then◌else◌,
  [],
}
use peerboot_cpp.Text.{Str, str_eq}
use peerboot_cpp.Text.Order.{str_eq_iff, str_eq_refl}
use peerboot_cpp.SortedMap.{find, insert}
use peerboot_cpp.SortedMap.Laws.{find-insert}
use peerboot_cpp.Store.{
  Store, StoredPeer, at_service, UpdateResult, upd_added_new, upd_updated_value,
  upd_updated_only_time, find_peer, with_service, add_peer, update_found, find_and_update,
}

find_peer-with_service :
    (store : Store) (s t e : Str) → find_peer (with_service s store) t e ≡ find_peer store t e
unfolding find_peer with_service find
find_peer-with_service store s t e = ground (arith, find-insert s t [] store, str_eq_iff s t)

find_peer-insert :
    (store : Store) (p : StoredPeer) (s e : Str)
    → find_peer (insert p.service (insert p.endpoint p (at_service p.service store)) store) s e
      ≡ (if str_eq p.service s && str_eq p.endpoint e then some p else find_peer store s e)
unfolding find_peer find
find_peer-insert store p s e = ground (
  arith,
  find-insert p.service s (insert p.endpoint p (at_service p.service store)) store,
  find-insert p.endpoint e p (at_service p.service store),
  str_eq_iff p.service s,
)

-- Adding an entry changes what is stored at its service and endpoint, and nothing else.
pub find_peer-add_peer :
    (store : Store) (p : StoredPeer) (s e : Str)
    → find_peer (add_peer store p) s e
      ≡ (if str_eq p.service s && str_eq p.endpoint e then some p else find_peer store s e)
unfolding add_peer
find_peer-add_peer store p s e = rw find_peer-insert (rw find_peer-with_service)

-- The entry that an update leaves: a new one takes the time of the update; an entry whose removal
-- flag is already as reported keeps the time at which it was added.
abbrev pub updated : ℕ → StoredPeer → Option StoredPeer → StoredPeer
updated now peer none = record peer { added_time = now }
updated now peer (some old) =
    if bool_ne old.is_removed peer.is_removed
    then record peer { added_time = now }
    else record peer { added_time = old.added_time }

-- What the update reports.
abbrev pub verdict : Bool → Option StoredPeer → UpdateResult
verdict is_removed none = upd_added_new
verdict is_removed (some old) =
    if bool_ne old.is_removed is_removed then upd_updated_value else upd_updated_only_time

abbrev pub reported : Str → Str → Bool → ℕ → StoredPeer
reported s e is_removed last_seen = record {
  service = s;
  endpoint = e;
  added_time = 0;
  last_seen = last_seen;
  is_removed = is_removed;
}

-- find_and_update reports whether the peer was unknown, known with the other removal flag, or known
-- with the same flag, and afterwards the store has the updated entry at the given service and
-- endpoint and what it had before everywhere else.
pub find_and_update_lem :
    (now : ℕ) (store : Store) (s e : Str) (is_removed : Bool) (last_seen : ℕ) (t f : Str)
    → ((find_and_update now store s e is_removed last_seen).1
        ≡ verdict is_removed (find_peer store s e))
      × (find_peer (find_and_update now store s e is_removed last_seen).0 t f ≡ (
          if str_eq s t && str_eq e f
          then some (updated now (reported s e is_removed last_seen) (find_peer store s e))
          else find_peer store t f))
unfolding find_and_update
find_and_update_lem now store s e is_removed last_seen t f =
    elim (find_peer store s e)
      as (λ o.
        ((update_found store (reported_now) o).1 ≡ verdict is_removed o)
        × (find_peer (update_found store reported_now o).0 t f ≡ (
            if str_eq s t && str_eq e f
            then some (updated now (reported s e is_removed last_seen) o)
            else find_peer store t f))) [
              | none ↦ (refl, find_peer-add_peer store reported_now t f)
              | some old ↦ ground (
                arith,
                find_peer-add_peer store reported_now t f,
                find_peer-add_peer store (record reported_now { added_time = old.added_time }) t f,
              )
            ]
  where
    reported_now : StoredPeer
    reported_now = record (reported s e is_removed last_seen) { added_time = now }

verdict-updated :
    (now : ℕ) (s e : Str) (is_removed : Bool) (seen : ℕ) (o : Option StoredPeer)
    → verdict is_removed (some (updated now (reported s e is_removed seen) o))
      ≡ upd_updated_only_time
verdict-updated now s e true seen o = ground arith
verdict-updated now s e false seen o = ground arith

-- An update that repeats the last report about a peer, whatever the times, finds nothing new.
find_and_update_again :
    (now later : ℕ) (store : Store) (s e : Str) (is_removed : Bool) (seen seen' : ℕ)
    → (find_and_update later
        (find_and_update now store s e is_removed seen).0
        s
        e
        is_removed
        seen').1
      ≡ upd_updated_only_time
find_and_update_again now later store s e is_removed seen seen' =
    let store' : Store = (find_and_update now store s e is_removed seen).0 in
    (find_and_update_lem later store' s e is_removed seen' s e).0
    ∙ ap (verdict is_removed) (found _ (find_and_update_lem now store s e is_removed seen s e).1)
    ∙ verdict-updated now s e is_removed seen (find_peer store s e)
  where
    found :
        {o : Option StoredPeer} {p : StoredPeer} (o' : Option StoredPeer)
        → o ≡ (if str_eq s s && str_eq e e then some p else o')
        → o ≡ some p
    found o' h = simp str_eq_refl at h
