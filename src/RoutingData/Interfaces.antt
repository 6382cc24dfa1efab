-- ===== src/RoutingData/Interfaces.antt =====
-- On which interface a source is heard, by the table of mcproxy/src/proxy/simple_routing_data.cpp.
use mathlib.Core.Option
use mcproxy.Base.{
  ℕ, ◌≡◌, refl, sym, subst, inl, inr, Bool, true, false, not, ◌&&◌, Option, none, some, [], ◌∷◌,
  arith, ◌==◌, if◌then◌else◌, Bool-cases, Option-cases,
}
use mcproxy.SourceList.{erase, find?, update}
use mcproxy.SourceList.Laws.{find?-erase, KeepsKey, find?-update}
use mcproxy.MapOf.{lookup, put, remove, lookup-put, lookup-remove}
use mcproxy.Message.{key, Source}
use mcproxy.RoutingData.{
  RoutingTable, Stats, get_current_packet_count, to_unsigned, set_count, set_entry, set_source,
  del_entry, put_used, del_source, refresh_source_or_del_it_if_unused, get_available_sources,
  get_interface_map, SrDataValue,
}
use mcproxy.RoutingData.Entries.{del_entry-IsRemainder, IsEntry, IsRemainder}
use mcproxy.RoutingData.Store.{
  IsTable, interface_of, source_of, remainder, put_interface, put_used_interface, put_source,
  put_used_source, set_source_new, del_source_unknown, refresh_unknown, set_source_known,
  del_source_known, refresh_missing, refresh_known,
}

found_interface :
    (k j gaddr : ℕ) (d : SrDataValue) (m : RoutingTable)
    → lookup gaddr m ≡ some d
    → (gaddr == k) ≡ true
    → interface_of k j m ≡ lookup j d.if_map
unfolding get_interface_map
found_interface k j gaddr d m e q = ground (arith, e, q)

missing_interface :
    (k j gaddr : ℕ) (m : RoutingTable)
    → lookup gaddr m ≡ none
    → (gaddr == k) ≡ true
    → interface_of k j m ≡ none
unfolding get_interface_map lookup
missing_interface k j gaddr m e q = ground (arith, e, q)

-- Whether an address is the source `saddr` of group `gaddr`.
abbrev pub is_that : ℕ → ℕ → ℕ → ℕ → Bool
is_that gaddr saddr k j = (gaddr == k) && (saddr == j)

-- After `set_source` the source is heard on the given interface, and any other source of any group
-- where it was before, whether the group was known, the source was known, or neither.
pub set_source-interface :
    (stats : Stats) (if_index gaddr : ℕ) (s : Source) (m : RoutingTable) (k j : ℕ)
    → interface_of k j (set_source stats if_index gaddr s m)
      ≡ (if is_that gaddr s.saddr k j then some if_index else interface_of k j m)
unfolding set_entry lookup
set_source-interface stats if_index gaddr s m k j = elim (Option-cases (lookup gaddr m)) [
  | inl e ↦ ground (
    arith,
    set_source_new gaddr m stats if_index s e,
    put_interface k gaddr j (record { source_list = s ∷ []; if_map = (s.saddr, if_index) ∷ [] }) m,
    missing_interface k j gaddr m e,
  )
  | inr (d, e) ↦ ground (
    arith,
    set_source_known gaddr m d e stats if_index s,
    put_interface k gaddr j (set_entry stats if_index gaddr s d) m,
    lookup-put j s.saddr if_index d.if_map,
    found_interface k j gaddr d m e,
  )
]

-- After `del_source` on a table in order the source is heard on no interface, and any other source
-- of any group where it was before.
pub del_source-interface :
    (gaddr saddr : ℕ) (m : RoutingTable) (k j : ℕ)
    → IsTable m
    → interface_of k j (del_source gaddr saddr m)
      ≡ (if is_that gaddr saddr k j then none else interface_of k j m)
unfolding del_entry
del_source-interface gaddr saddr m k j v = elim (Option-cases (lookup gaddr m)) [
  | inl e ↦ ground (arith, del_source_unknown gaddr m saddr e, missing_interface k j gaddr m e)
  | inr (d, e) ↦ ground (
    arith,
    del_source_known gaddr m d e saddr,
    put_used_interface k gaddr j (del_entry saddr d) m
        (del_entry-IsRemainder saddr d (remainder d (v gaddr d e))),
    lookup-remove j saddr d.if_map,
    found_interface k j gaddr d m e,
  )
]

-- The source's counter still is what the kernel says.
abbrev pub is_idle : Stats → ℕ → ℕ → Option Source → Bool
is_idle stats gaddr saddr none = true
is_idle stats gaddr saddr (some s) =
    to_unsigned s.retransmission_count == get_current_packet_count stats gaddr saddr

-- What `refresh_source_or_del_it_if_unused` promises of its result `r`.
abbrev pub Refreshed : Stats → ℕ → ℕ → RoutingTable → Bool × RoutingTable → Type 0
Refreshed stats gaddr saddr m r =
    (r.0 ≡ not (is_idle stats gaddr saddr (find? key saddr (get_available_sources gaddr m))))
    × ((k j : ℕ)
        → interface_of k j r.1
          ≡ (if is_that gaddr saddr k j && not (r.0) then none else interface_of k j m))
    × ((k j : ℕ)
        → source_of k j r.1 ≡ (
            if is_that gaddr saddr k j
            then (if r.0
                then Option.map (set_count (get_current_packet_count stats gaddr saddr))
                    (source_of k j m)
                else none)
            else source_of k j m))

available_unknown :
    (gaddr : ℕ) (m : RoutingTable) → lookup gaddr m ≡ none → get_available_sources gaddr m ≡ []
unfolding get_available_sources
available_unknown gaddr m e = ground (arith, e)

available_known :
    (gaddr : ℕ) (d : SrDataValue) (m : RoutingTable)
    → lookup gaddr m ≡ some d
    → get_available_sources gaddr m ≡ d.source_list
unfolding get_available_sources
available_known gaddr d m e = ground (arith, e)

found_source :
    (k j gaddr : ℕ) (d : SrDataValue) (m : RoutingTable)
    → lookup gaddr m ≡ some d
    → (gaddr == k) ≡ true
    → source_of k j m ≡ find? key j d.source_list
unfolding get_available_sources
found_source k j gaddr d m e q = ground (arith, e, q)

missing_source :
    (k j gaddr : ℕ) (m : RoutingTable)
    → lookup gaddr m ≡ none
    → (gaddr == k) ≡ true
    → source_of k j m ≡ none
unfolding get_available_sources find?
missing_source k j gaddr m e q = ground (arith, e, q)

set_count-KeepsKey : (n : ℕ) → KeepsKey key (set_count n)
unfolding set_count
set_count-KeepsKey n s = refl

module _ (stats : Stats) (gaddr saddr : ℕ) (m : RoutingTable) where
  unknown-Refreshed : lookup gaddr m ≡ none → Refreshed stats gaddr saddr m (false, m)
  unfolding find?
  unknown-Refreshed e = (
    rw (available_unknown gaddr m e) refl,
    λ k j. ground (arith, missing_interface k j gaddr m e),
    λ k j. ground (arith, missing_source k j gaddr m e),
  )

  module _ (d : SrDataValue) (e : lookup gaddr m ≡ some d) (v : IsEntry d) where
    once : IsRemainder (del_entry saddr d)
    once = del_entry-IsRemainder saddr d (remainder d v)

    missing-Refreshed :
        find? key saddr d.source_list ≡ none
        → Refreshed stats gaddr saddr m (false, put_used gaddr (del_entry saddr d) m)
    unfolding del_entry
    missing-Refreshed f = (
      rw (available_known gaddr d m e, f) refl,
      λ k j. ground (
        arith,
        put_used_interface k gaddr j (del_entry saddr d) m once,
        lookup-remove j saddr d.if_map,
        found_interface k j gaddr d m e,
      ),
      λ k j. ground (
        arith,
        put_used_source k gaddr j (del_entry saddr d) m,
        find?-erase key j saddr d.source_list,
        found_source k j gaddr d m e,
      ),
    )

    module _ (s : Source) (f : find? key saddr d.source_list ≡ some s) where
      idle-Refreshed :
          is_idle stats gaddr saddr (some s) ≡ true
          → Refreshed stats gaddr saddr m
              (false, put_used gaddr (del_entry saddr (del_entry saddr d)) m)
      unfolding del_entry
      idle-Refreshed h = (
        rw (available_known gaddr d m e, f, h) refl,
        λ k j. ground (
          arith,
          put_used_interface k gaddr j (del_entry saddr (del_entry saddr d)) m
              (del_entry-IsRemainder saddr (del_entry saddr d) once),
          lookup-remove j saddr d.if_map,
          lookup-remove j saddr (remove saddr d.if_map),
          found_interface k j gaddr d m e,
        ),
        λ k j. ground (
          arith,
          put_used_source k gaddr j (del_entry saddr (del_entry saddr d)) m,
          find?-erase key j saddr d.source_list,
          find?-erase key j saddr (erase key saddr d.source_list),
          found_source k j gaddr d m e,
        ),
      )

      abbrev counted : SrDataValue
      counted = record d {
        source_list =
            update key saddr (set_count (get_current_packet_count stats gaddr saddr)) d.source_list;
      }

      counted-Refreshed :
          is_idle stats gaddr saddr (some s) ≡ false
          → Refreshed stats gaddr saddr m (true, put gaddr counted m)
      counted-Refreshed h = (
        rw (available_known gaddr d m e, f, h) refl,
        λ k j. ground (arith, put_interface k gaddr j counted m, found_interface k j gaddr d m e),
        λ k j.
            let count = set_count (get_current_packet_count stats gaddr saddr) in
            ground (
              arith,
              put_source k gaddr j counted m,
              find?-update key j saddr count d.source_list
                  (set_count-KeepsKey (get_current_packet_count stats gaddr saddr)),
              found_source k j gaddr d m e,
            ),
      )

      known-Refreshed :
          Refreshed stats gaddr saddr m (refresh_source_or_del_it_if_unused stats gaddr saddr m)
      known-Refreshed =
          subst (Refreshed stats gaddr saddr m) (sym (refresh_known gaddr m d e stats saddr s f))
            (elim (Bool-cases (is_idle stats gaddr saddr (some s))) [
              | inl h ↦ rw h (idle-Refreshed h)
              | inr h ↦ rw h (counted-Refreshed h)
            ])

-- On a table in order `refresh_source_or_del_it_if_unused` refreshes a source if and only if the
-- table has it and its counter differs from the kernel's count. The counter of a source that it refreshes
-- is that count afterwards, and the source is heard where it was; a source that it does not refresh is no
-- longer in the table and heard on no interface. Every other source of any group stays as it was.
pub refresh-Refreshed :
    (stats : Stats) (gaddr saddr : ℕ) (m : RoutingTable)
    → IsTable m
    → Refreshed stats gaddr saddr m (refresh_source_or_del_it_if_unused stats gaddr saddr m)
refresh-Refreshed stats gaddr saddr m v = elim (Option-cases (lookup gaddr m)) [
  | inl e ↦
      subst (Refreshed stats gaddr saddr m) (sym (refresh_unknown gaddr m stats saddr e))
        (unknown-Refreshed stats gaddr saddr m e)
  | inr (d, e) ↦ elim (Option-cases (find? key saddr d.source_list)) [
    | inl f ↦
        subst (Refreshed stats gaddr saddr m) (sym (refresh_missing gaddr m d e stats saddr f))
          (missing-Refreshed stats gaddr saddr m d e (v gaddr d e) f)
    | inr (s, f) ↦ known-Refreshed stats gaddr saddr m d e (v gaddr d e) s f
  ]
]
