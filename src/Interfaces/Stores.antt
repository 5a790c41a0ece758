-- ===== src/Interfaces/Stores.antt =====
-- The contract of a store, the program's store under it, and a user of it.
use mathlib.Core.List.{Mem}
use peerboot_cpp.Prelude.{
  ℕ, ◌≡◌, refl, ap, ◌∙◌, Bool, true, false, ◌&&◌, Option, none, some, All, arith, if◌then◌else◌,
}
use peerboot_cpp.Text.{Str, str_eq}
use peerboot_cpp.Text.Order.{str_eq_refl}
use peerboot_cpp.SortedMap.{find}
use peerboot_cpp.Store.{
  Store, StoredPeer, upd_updated_only_time, find_and_update, find_peer, query, clear,
}
use peerboot_cpp.Store.Lookup.{verdict, updated, reported, find_and_update_lem}
use peerboot_cpp.Store.Query.{query_sound, query_complete}
use peerboot_cpp.Store.WellFormed.{IsWellFormed, IsWellFormed-empty, find_and_update-IsWellFormed}
use peerboot_cpp.Interfaces.{IStore}

-- The answers to a query: the present peers of a service.
abbrev IsAnswer : {S : Type 0} → IStore S → S → Str → StoredPeer → Type 0
IsAnswer i store s p =
    (p.service ≡ s) × (i.find_peer store s p.endpoint ≡ some p) × (p.is_removed ≡ false)

-- A store is a map from services and endpoints to entries, as long as it is changed by its methods.
pub record IsStore (S : Type 0) (i : IStore S) (IsValid : S → Type 0) : Type 0 where
  pub verdicts :
      (now : ℕ) (store : S) (s e : Str) (b : Bool) (seen : ℕ)
      → (i.find_and_update now store s e b seen).1 ≡ verdict b (i.find_peer store s e)
  pub entries :
      (now : ℕ) (store : S) (s e : Str) (b : Bool) (seen : ℕ) (t f : Str)
      → i.find_peer (i.find_and_update now store s e b seen).0 t f ≡ (
          if str_eq s t && str_eq e f
          then some (updated now (reported s e b seen) (i.find_peer store s e))
          else i.find_peer store t f)
  pub keeps :
      (now : ℕ) (store : S) (s e : Str) (b : Bool) (seen : ℕ)
      → IsValid store
      → IsValid (i.find_and_update now store s e b seen).0
  pub sound : (store : S) (s : Str) → IsValid store → All (IsAnswer i store s) (i.query store s)
  pub complete :
      (store : S) (s e : Str) (p : StoredPeer)
      → i.find_peer store s e ≡ some p
      → p.is_removed ≡ false
      → Mem p (i.query store s)
  pub clears : (store : S) (s e : Str) → i.find_peer (i.clear store) s e ≡ none
  pub clear_keeps : (store : S) → IsValid (i.clear store)

-- Store as an IStore
abbrev pub peer_store : IStore Store
peer_store = record {
  find_and_update = find_and_update;
  find_peer = find_peer;
  query = query;
  clear = clear;
}

pub peer_store-IsStore : IsStore Store peer_store IsWellFormed
unfolding find_peer clear find
peer_store-IsStore = record {
  verdicts = λ now store s e b seen. (find_and_update_lem now store s e b seen s e).0;
  entries = λ now store s e b seen t f. (find_and_update_lem now store s e b seen t f).1;
  keeps = λ now store s e b seen valid. find_and_update-IsWellFormed now store s e b seen valid;
  sound = λ store s valid. query_sound store s valid;
  complete = query_complete;
  clears = λ store s e. refl;
  clear_keeps = λ store. IsWellFormed-empty;
}

updated-is_removed :
    (now : ℕ) (s e : Str) (b : Bool) (seen : ℕ) (o : Option StoredPeer)
    → verdict b (some (updated now (reported s e b seen) o)) ≡ upd_updated_only_time
updated-is_removed now s e true seen o = ground arith
updated-is_removed now s e false seen o = ground arith

module _ (S : Type 0) (i : IStore S) (IsValid : S → Type 0) (laws : IsStore S i IsValid) where
  -- Whatever the store, an update that is repeated, at whatever times, is not news.
  repeated_only_time :
      (now later : ℕ) (store : S) (s e : Str) (b : Bool) (seen seen' : ℕ)
      → (i.find_and_update later (i.find_and_update now store s e b seen).0 s e b seen').1
        ≡ upd_updated_only_time
  repeated_only_time now later store s e b seen seen' =
      let entry : i.find_peer (i.find_and_update now store s e b seen).0 s e
          ≡ some (updated now (reported s e b seen) (i.find_peer store s e)) =
        laws.entries now store s e b seen s e ∙ simp str_eq_refl in
      laws.verdicts later _ s e b seen'
      ∙ ap (verdict b) entry
      ∙ updated-is_removed now s e b seen (i.find_peer store s e)
