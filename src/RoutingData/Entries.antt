-- ===== src/RoutingData/Entries.antt =====
-- What the operations of mcproxy/src/proxy/simple_routing_data.cpp do to the entry of one group.
use mcproxy.Base.{
  ℕ, ◌≡◌, refl, ◌∙◌, inl, inr, false, ◌||◌, List, [], ◌∷◌, arith, ◌==◌, Bool-cases, is_some,
  is_empty,
}
use mcproxy.SourceList.{insert, erase, find?, contains, update, IsSorted}
use mcproxy.SourceList.Laws.{
  insert-Ascending, erase-Ascending, find?-insert, find?-erase, find?-update, update-Ascending,
}
use mcproxy.MapOf.{lookup, lookup-put, lookup-remove}
use mcproxy.Message.{key, Source}
use mcproxy.RoutingData.{
  Stats, get_current_packet_count, set_count, set_entry, del_entry, SrDataValue,
}

-- The sources are a set, not an empty one, and each has its interface, as nothing else has.
pub record IsEntry (e : SrDataValue) : Type 0 where
  pub sorted : IsSorted key e.source_list
  pub inhabited : is_empty e.source_list ≡ false
  pub mapped : (j : ℕ) → is_some (lookup j e.if_map) ≡ contains key j e.source_list

-- Like `IsEntry`, where the sources may all be gone.
pub record IsRemainder (e : SrDataValue) : Type 0 where
  pub rest_sorted : IsSorted key e.source_list
  pub rest_mapped : (j : ℕ) → is_some (lookup j e.if_map) ≡ contains key j e.source_list

insert_inhabited : (s : Source) (l : List Source) → is_empty (insert key s l) ≡ false
unfolding insert
insert_inhabited s [] = refl
insert_inhabited s (x ∷ l) = ground arith

update_inhabited :
    (k : ℕ) (f : Source → Source) (l : List Source) → is_empty (update key k f l) ≡ is_empty l
unfolding update
update_inhabited k f [] = refl
update_inhabited k f (x ∷ l) = ground arith

pub first-IsEntry :
    (s : Source) (if_index : ℕ)
    → IsEntry (record { source_list = s ∷ []; if_map = (s.saddr, if_index) ∷ [] })
unfolding lookup contains find?
first-IsEntry s if_index = record {
  sorted = (omega arith, tt);
  inhabited = refl;
  mapped = λ j. ground arith;
}

module _ (stats : Stats) (if_index gaddr : ℕ) (s : Source) (e : SrDataValue) (v : IsEntry e) where
  set_entry-IsSorted : IsSorted key (set_entry stats if_index gaddr s e).source_list
  unfolding set_entry
  set_entry-IsSorted = elim (Bool-cases (contains key s.saddr e.source_list)) [
    | inl h ↦ rw h (
        insert-Ascending key 0 _ _ (omega arith)
          (erase-Ascending key 0 s.saddr e.source_list v.sorted))
    | inr h ↦ rw h (insert-Ascending key 0 s e.source_list (omega arith) v.sorted)
  ]

  set_entry_inhabited : is_empty (set_entry stats if_index gaddr s e).source_list ≡ false
  unfolding set_entry
  set_entry_inhabited = elim (Bool-cases (contains key s.saddr e.source_list)) [
    | inl h ↦ rw h (insert_inhabited _ (erase key s.saddr e.source_list))
    | inr h ↦ rw h (insert_inhabited s e.source_list)
  ]

  pub contains-set_entry :
      (j : ℕ)
      → contains key j (set_entry stats if_index gaddr s e).source_list
        ≡ (contains key j e.source_list || (s.saddr == j))
  unfolding set_entry set_count contains
  contains-set_entry j = ground (
    arith,
    find?-insert key j 0 (set_count (get_current_packet_count stats gaddr s.saddr) s)
        (erase key s.saddr e.source_list) (erase-Ascending key 0 s.saddr e.source_list v.sorted),
    find?-insert key j 0 s e.source_list v.sorted,
    find?-erase key j s.saddr e.source_list,
  )

  pub set_entry-IsEntry : IsEntry (set_entry stats if_index gaddr s e)
  unfolding set_entry
  set_entry-IsEntry = record {
    sorted = set_entry-IsSorted;
    inhabited = set_entry_inhabited;
    mapped = λ j.
        ground (arith, contains-set_entry j, lookup-put j s.saddr if_index e.if_map, v.mapped j);
  }

pub del_entry-IsRemainder :
    (saddr : ℕ) (e : SrDataValue) → IsRemainder e → IsRemainder (del_entry saddr e)
unfolding del_entry contains
del_entry-IsRemainder saddr e v = record {
  rest_sorted = erase-Ascending key 0 saddr e.source_list v.rest_sorted;
  rest_mapped = λ j. ground (
    arith,
    find?-erase key j saddr e.source_list,
    lookup-remove j saddr e.if_map,
    v.rest_mapped j,
  );
}

pub set_count-IsEntry :
    (saddr n : ℕ) (e : SrDataValue)
    → IsEntry e
    → IsEntry (record e { source_list = update key saddr (set_count n) e.source_list })
unfolding contains set_count
set_count-IsEntry saddr n e v = record {
  sorted = update-Ascending key 0 saddr (set_count n) e.source_list (λ x. refl) v.sorted;
  inhabited = update_inhabited saddr (set_count n) e.source_list ∙ v.inhabited;
  mapped = λ j.
      ground (arith, find?-update key j saddr (set_count n) e.source_list (λ x. refl), v.mapped j);
}
