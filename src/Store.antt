-- ===== src/Store.antt =====
-- The store of peers (src/peerboot/istore.hpp, src/peerboot/store.hpp, src/peerboot/store.cpp): a
-- map from services to maps from endpoints to entries. Every public method holds the store's mutex,
-- so a method is one step. The current time is an argument.
pub mod Lookup
pub mod WellFormed
pub mod Query
pub mod Count
use peerboot_cpp.Prelude.{
  ℕ, ◌+◌, Bool, true, false, not, List, [], ◌∷◌, Option, none, some, if◌then◌else◌, length, select,
  bool_ne,
}
use peerboot_cpp.Text.{Str}
use peerboot_cpp.SortedMap.{SortedMap, find, insert, values}

-- IStore::PeerInfo
pub record StoredPeer : Type 0 where
  pub service : Str
  pub endpoint : Str
  pub added_time : ℕ
  pub last_seen : ℕ
  pub is_removed : Bool

pub data UpdateResult : Type 0 where
  upd_invalid upd_added_new upd_updated_value upd_updated_only_time : UpdateResult
  upd_no_change_needed : UpdateResult

abbrev pub ServiceStore : Type 0
ServiceStore = SortedMap StoredPeer

abbrev pub Store : Type 0
Store = SortedMap ServiceStore

abbrev pub empty : Store
empty = []

-- `store[service]`, which makes an empty map for a service that is missing
abbrev pub at_service : Str → Store → ServiceStore
at_service service store = elim (find service store) [ none ↦ [] | some m ↦ m ]

unfoldable pub find_peer : Store → Str → Str → Option StoredPeer
find_peer store service endpoint = elim (find service store) [
  | none ↦ none
  | some endpoints ↦ find endpoint endpoints
]

-- The service's map is made first, if it is missing.
pub with_service : Str → Store → Store
with_service service store = elim (find service store) [
  | none ↦ insert service [] store
  | some _ ↦ store
]

unfoldable pub add_peer : Store → StoredPeer → Store
unfolding with_service
add_peer store peer =
    let present = with_service peer.service store in
    insert peer.service (insert peer.endpoint peer (at_service peer.service present)) present

-- What `find_and_update` does once it has looked the peer up.
update_found : Store → StoredPeer → Option StoredPeer → Store × UpdateResult
update_found store new_peer none = (add_peer store new_peer, upd_added_new)
update_found store new_peer (some old_peer) =
    if bool_ne old_peer.is_removed new_peer.is_removed
    then (add_peer store new_peer, upd_updated_value)
    else (
      add_peer store (record new_peer { added_time = old_peer.added_time }),
      upd_updated_only_time,
    )

unfoldable pub find_and_update : ℕ → Store → Str → Str → Bool → ℕ → Store × UpdateResult
unfolding update_found
find_and_update now store service endpoint is_removed last_seen =
    update_found store
      (record {
        service = service;
        endpoint = endpoint;
        added_time = now;
        last_seen = last_seen;
        is_removed = is_removed;
      })
      (find_peer store service endpoint)

unfoldable pub count : Store → ℕ
count [] = 0
count ((service, endpoints) ∷ store) = length endpoints + count store

abbrev pub is_present : StoredPeer → Bool
is_present peer = not peer.is_removed

unfoldable pub count_nonremoved : Store → ℕ
count_nonremoved [] = 0
count_nonremoved ((service, endpoints) ∷ store) =
    length (select is_present (values endpoints)) + count_nonremoved store

unfoldable pub query : Store → Str → List StoredPeer
query store service = elim (find service store) [
  | none ↦ []
  | some endpoints ↦ select is_present (values endpoints)
]

unfoldable pub clear : Store → Store
clear store = empty
