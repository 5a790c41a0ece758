-- ===== src/Tests/StoreExamples.antt =====
-- The store: tests, and its properties at a concrete input.
use mathlib.Core.List.{Mem}
use peerboot_cpp.Prelude.{
  ◌+◌, ◌≡◌, refl, arith, true, false, ◌&&◌, some, [], ◌∷◌, All, if◌then◌else◌,
}
use peerboot_cpp.Text.{codes, str_eq, str_lt}
use peerboot_cpp.SortedMap.{find, insert}
use peerboot_cpp.TimeStamp.{now, age, age-now}
use peerboot_cpp.Store.{
  upd_added_new, find_peer, add_peer, find_and_update, count, count_nonremoved, query,
}
use peerboot_cpp.Store.Lookup.{verdict, updated, reported, find_and_update_lem}
use peerboot_cpp.Store.WellFormed.{IsWellFormed, find_and_update-IsWellFormed}
use peerboot_cpp.Store.Count.{one_if_none, count-find_and_update}
use peerboot_cpp.Store.Query.{query_sound, query_complete}
use peerboot_cpp.Tests.Samples.{known_peer, one_entry}

-- A second endpoint goes in front of the first, in the order of the keys; a removed one is counted,
-- and is not in the answer of a query.
added : (find_and_update 100 one_entry (codes "s") (codes "a") true 99).1 ≡ upd_added_new
unfolding find_and_update find_peer find str_eq
added = refl

added_count :
    (count (find_and_update 100 one_entry (codes "s") (codes "a") true 99).0 ≡ 2)
    × (count_nonremoved (find_and_update 100 one_entry (codes "s") (codes "a") true 99).0 ≡ 1)
    × (query (find_and_update 100 one_entry (codes "s") (codes "a") true 99).0 (codes "s")
        ≡ known_peer ∷ [])
unfolding find_and_update find_peer add_peer find insert str_eq str_lt count count_nonremoved query
added_count = (refl, refl, refl)

one_entry-IsWellFormed : IsWellFormed one_entry
one_entry-IsWellFormed = record { sorted = (tt, tt); services = (((tt, tt), (refl, refl, tt)), tt) }

one_entry_found : find_peer one_entry (codes "s") (codes "e1") ≡ some known_peer
unfolding find_peer find str_eq
one_entry_found = refl

find_and_update_lem_example :
    ((find_and_update 100 one_entry (codes "s") (codes "e1") true 99).1
      ≡ verdict true (find_peer one_entry (codes "s") (codes "e1")))
    × (find_peer
          (find_and_update 100 one_entry (codes "s") (codes "e1") true 99).0
          (codes "s")
          (codes "e1")
        ≡ (if str_eq (codes "s") (codes "s") && str_eq (codes "e1") (codes "e1")
            then some (
                updated 100
                  (reported (codes "s") (codes "e1") true 99)
                  (find_peer one_entry (codes "s") (codes "e1")))
            else find_peer one_entry (codes "s") (codes "e1")))
find_and_update_lem_example =
    find_and_update_lem 100 one_entry (codes "s") (codes "e1") true 99 (codes "s") (codes "e1")

find_and_update-IsWellFormed_example :
    IsWellFormed (find_and_update 100 one_entry (codes "s") (codes "a") false 99).0
find_and_update-IsWellFormed_example =
    find_and_update-IsWellFormed 100 one_entry (codes "s") (codes "a") false 99
      one_entry-IsWellFormed

count-find_and_update_example :
    count (find_and_update 100 one_entry (codes "t") (codes "a") false 99).0
    ≡ count one_entry + one_if_none (find_peer one_entry (codes "t") (codes "a"))
count-find_and_update_example =
    count-find_and_update 100 one_entry (codes "t") (codes "a") false 99 one_entry-IsWellFormed

query_sound_example :
    All
      (λ p.
        (p.service ≡ codes "s")
        × (find_peer one_entry (codes "s") p.endpoint ≡ some p)
        × (p.is_removed ≡ false))
      (query one_entry (codes "s"))
query_sound_example = query_sound one_entry (codes "s") one_entry-IsWellFormed

query_complete_example : Mem known_peer (query one_entry (codes "s"))
query_complete_example =
    query_complete one_entry (codes "s") (codes "e1") known_peer one_entry_found refl

age-now_example : age (1546300900 + 42) (now 1546300900) ≡ 42
age-now_example = age-now 1546300900 42 (omega arith)
