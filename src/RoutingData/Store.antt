-- ===== src/RoutingData/Store.antt =====
-- What the operations of mcproxy/src/proxy/simple_routing_data.cpp do to the whole table.
use mcproxy.Base.{
  ℕ, ◌≡◌, refl, sym, ap, subst, ◌∙◌, inl, inr, true, false, Option, none, some, List, [], ◌∷◌,
  arith, ◌==◌, if◌then◌else◌, Bool-cases, Option-cases, some-inj, is_empty,
}
use mcproxy.SourceList.{find?, update}
use mcproxy.SourceList.Members.{empty_contains}
use mcproxy.MapOf.{lookup, put, remove, lookup-put, lookup-remove}
use mcproxy.Message.{key, Source}
use mcproxy.RoutingData.{
  RoutingTable, Stats, get_current_packet_count, to_unsigned, set_count, set_entry, set_source,
  del_entry, put_used, del_source, refresh_source_or_del_it_if_unused, get_available_sources,
  get_interface_map, SrDataValue,
}
use mcproxy.RoutingData.Entries.{
  first-IsEntry, set_entry-IsEntry, del_entry-IsRemainder, set_count-IsEntry, IsEntry, IsRemainder,
}

abbrev pub IsTable : RoutingTable → Type 0
IsTable m = (k : ℕ) (e : SrDataValue) → lookup k m ≡ some e → IsEntry e

-- The interface on which a source of a group is heard.
abbrev pub interface_of : ℕ → ℕ → RoutingTable → Option ℕ
interface_of gaddr saddr m = lookup saddr (get_interface_map gaddr m)

-- The source as the table has it.
abbrev pub source_of : ℕ → ℕ → RoutingTable → Option Source
source_of gaddr saddr m = find? key saddr (get_available_sources gaddr m)

put-IsTable :
    (k : ℕ) (e : SrDataValue) (m : RoutingTable) → IsTable m → IsEntry e → IsTable (put k e m)
put-IsTable k e m v h j d p = elim (Bool-cases (k == j)) [
  | inl q ↦ subst IsEntry (some-inj (sym (lookup-put j k e m ∙ rw q refl) ∙ p)) h
  | inr q ↦ v j d (sym (lookup-put j k e m ∙ rw q refl) ∙ p)
]

remove-IsTable : (k : ℕ) (m : RoutingTable) → IsTable m → IsTable (remove k m)
remove-IsTable k m v j d p = elim (Bool-cases (k == j)) [
  | inl q ↦ absurd (ground (arith, p, q, lookup-remove j k m))
  | inr q ↦ v j d (sym (lookup-remove j k m ∙ rw q refl) ∙ p)
]

pub remainder : (e : SrDataValue) → IsEntry e → IsRemainder e
remainder e v = record { rest_sorted = v.sorted; rest_mapped = v.mapped }

put_used-IsTable :
    (k : ℕ) (e : SrDataValue) (m : RoutingTable)
    → IsTable m
    → IsRemainder e
    → IsTable (put_used k e m)
put_used-IsTable k e m v h = elim (Bool-cases (is_empty e.source_list)) [
  | inl p ↦ rw p (remove-IsTable k m v)
  | inr p ↦ rw p (
      put-IsTable k e m v
        (record { sorted = h.rest_sorted; inhabited = p; mapped = h.rest_mapped }))
]

-- The interface map of a group after `put` and `put_used`.
pub put_interface :
    (k gaddr j : ℕ) (e : SrDataValue) (m : RoutingTable)
    → interface_of k j (put gaddr e m)
      ≡ (if gaddr == k then lookup j e.if_map else interface_of k j m)
unfolding get_interface_map
put_interface k gaddr j e m = ground (arith, lookup-put k gaddr e m)

remove_interface :
    (k gaddr j : ℕ) (m : RoutingTable)
    → interface_of k j (remove gaddr m) ≡ (if gaddr == k then none else interface_of k j m)
unfolding get_interface_map lookup
remove_interface k gaddr j m = ground (arith, lookup-remove k gaddr m)

nothing_mapped :
    (j : ℕ) (e : SrDataValue)
    → IsRemainder e
    → is_empty e.source_list ≡ true
    → lookup j e.if_map ≡ none
nothing_mapped j e v p = ground (arith, v.rest_mapped j, empty_contains key j e.source_list p)

pub put_used_interface :
    (k gaddr j : ℕ) (e : SrDataValue) (m : RoutingTable)
    → IsRemainder e
    → interface_of k j (put_used gaddr e m)
      ≡ (if gaddr == k then lookup j e.if_map else interface_of k j m)
put_used_interface k gaddr j e m v = elim (Bool-cases (is_empty e.source_list)) [
  | inl p ↦ rw p (
      remove_interface k gaddr j m
      ∙ ap (λ o. if gaddr == k then o else interface_of k j m) (sym (nothing_mapped j e v p)))
  | inr p ↦ rw p (put_interface k gaddr j e m)
]

-- And its sources.
pub put_source :
    (k gaddr j : ℕ) (e : SrDataValue) (m : RoutingTable)
    → source_of k j (put gaddr e m)
      ≡ (if gaddr == k then find? key j e.source_list else source_of k j m)
unfolding get_available_sources
put_source k gaddr j e m = ground (arith, lookup-put k gaddr e m)

remove_source :
    (k gaddr j : ℕ) (m : RoutingTable)
    → source_of k j (remove gaddr m) ≡ (if gaddr == k then none else source_of k j m)
unfolding get_available_sources find?
remove_source k gaddr j m = ground (arith, lookup-remove k gaddr m)

nothing_found : (j : ℕ) (l : List Source) → is_empty l ≡ true → find? key j l ≡ none
unfolding find?
nothing_found j [] p = refl
nothing_found j (s ∷ l) p = absurd (ground (arith, p))

pub put_used_source :
    (k gaddr j : ℕ) (e : SrDataValue) (m : RoutingTable)
    → source_of k j (put_used gaddr e m)
      ≡ (if gaddr == k then find? key j e.source_list else source_of k j m)
put_used_source k gaddr j e m = elim (Bool-cases (is_empty e.source_list)) [
  | inl p ↦ rw p (
      remove_source k gaddr j m
      ∙ ap (λ o. if gaddr == k then o else source_of k j m) (sym (nothing_found j e.source_list p)))
  | inr p ↦ rw p (put_source k gaddr j e m)
]

-- The operations on a group that has no entry, and on one that has.
module _ (gaddr : ℕ) (m : RoutingTable) where
  pub set_source_new :
      (stats : Stats) (if_index : ℕ) (s : Source)
      → lookup gaddr m ≡ none
      → set_source stats if_index gaddr s m
        ≡ put gaddr (record { source_list = s ∷ []; if_map = (s.saddr, if_index) ∷ [] }) m
  unfolding set_source
  set_source_new stats if_index s e = rw (e, set_source) refl

  pub del_source_unknown : (saddr : ℕ) → lookup gaddr m ≡ none → del_source gaddr saddr m ≡ m
  unfolding del_source
  del_source_unknown saddr e = rw (e, del_source) refl

  pub refresh_unknown :
      (stats : Stats) (saddr : ℕ)
      → lookup gaddr m ≡ none
      → refresh_source_or_del_it_if_unused stats gaddr saddr m ≡ (false, m)
  unfolding refresh_source_or_del_it_if_unused
  refresh_unknown stats saddr e = rw (e, refresh_source_or_del_it_if_unused) refl

  module _ (d : SrDataValue) (e : lookup gaddr m ≡ some d) where
    pub set_source_known :
        (stats : Stats) (if_index : ℕ) (s : Source)
        → set_source stats if_index gaddr s m ≡ put gaddr (set_entry stats if_index gaddr s d) m
    unfolding set_source
    set_source_known stats if_index s = rw (e, set_source) refl

    pub del_source_known :
        (saddr : ℕ) → del_source gaddr saddr m ≡ put_used gaddr (del_entry saddr d) m
    unfolding del_source
    del_source_known saddr = rw (e, del_source) refl

    pub refresh_missing :
        (stats : Stats) (saddr : ℕ)
        → find? key saddr d.source_list ≡ none
        → refresh_source_or_del_it_if_unused stats gaddr saddr m
          ≡ (false, put_used gaddr (del_entry saddr d) m)
    unfolding refresh_source_or_del_it_if_unused
    refresh_missing stats saddr f = rw (e, f, refresh_source_or_del_it_if_unused) refl

    pub refresh_known :
        (stats : Stats) (saddr : ℕ) (s : Source)
        → find? key saddr d.source_list ≡ some s
        → let cnt = get_current_packet_count stats gaddr saddr in
          let refreshed = record d {
            source_list = update key saddr (set_count cnt) d.source_list;
          } in
          refresh_source_or_del_it_if_unused stats gaddr saddr m ≡ (
            if to_unsigned s.retransmission_count == cnt
            then (false, put_used gaddr (del_entry saddr (del_entry saddr d)) m)
            else (true, put gaddr refreshed m))
    unfolding refresh_source_or_del_it_if_unused
    refresh_known stats saddr s f = rw (e, f, refresh_source_or_del_it_if_unused) refl

module _ (gaddr : ℕ) (m : RoutingTable) (v : IsTable m) where
  set_source-IsTable :
      (stats : Stats) (if_index : ℕ) (s : Source) → IsTable (set_source stats if_index gaddr s m)
  set_source-IsTable stats if_index s = elim (Option-cases (lookup gaddr m)) [
    | inl e ↦
        subst IsTable (sym (set_source_new gaddr m stats if_index s e))
          (put-IsTable gaddr _ m v (first-IsEntry s if_index))
    | inr (d, e) ↦
        subst IsTable (sym (set_source_known gaddr m d e stats if_index s))
          (put-IsTable gaddr _ m v (set_entry-IsEntry stats if_index gaddr s d (v gaddr d e)))
  ]

  del_source-IsTable : (saddr : ℕ) → IsTable (del_source gaddr saddr m)
  del_source-IsTable saddr = elim (Option-cases (lookup gaddr m)) [
    | inl e ↦ subst IsTable (sym (del_source_unknown gaddr m saddr e)) v
    | inr (d, e) ↦
        subst IsTable (sym (del_source_known gaddr m d e saddr))
          (put_used-IsTable gaddr _ m v (del_entry-IsRemainder saddr d (remainder d (v gaddr d e))))
  ]

  refresh_known-IsTable :
      (stats : Stats) (saddr : ℕ) (d : SrDataValue) (s : Source)
      → lookup gaddr m ≡ some d
      → find? key saddr d.source_list ≡ some s
      → IsTable (refresh_source_or_del_it_if_unused stats gaddr saddr m).1
  refresh_known-IsTable stats saddr d s e f =
      let cnt = get_current_packet_count stats gaddr saddr in
      let gone = del_entry-IsRemainder saddr d (remainder d (v gaddr d e)) in
      subst (λ r. IsTable (r.1)) (sym (refresh_known gaddr m d e stats saddr s f))
        (elim (Bool-cases (to_unsigned s.retransmission_count == cnt)) [
          | inl h ↦
              rw h (
                put_used-IsTable gaddr _ m v (del_entry-IsRemainder saddr (del_entry saddr d) gone))
          | inr h ↦ rw h (put-IsTable gaddr _ m v (set_count-IsEntry saddr cnt d (v gaddr d e)))
        ])

  refresh-IsTable :
      (stats : Stats) (saddr : ℕ)
      → IsTable (refresh_source_or_del_it_if_unused stats gaddr saddr m).1
  refresh-IsTable stats saddr = elim (Option-cases (lookup gaddr m)) [
    | inl e ↦ subst (λ r. IsTable (r.1)) (sym (refresh_unknown gaddr m stats saddr e)) v
    | inr (d, e) ↦ elim (Option-cases (find? key saddr d.source_list)) [
      | inl f ↦
          subst (λ r. IsTable (r.1)) (sym (refresh_missing gaddr m d e stats saddr f))
            (put_used-IsTable gaddr _ m v
              (del_entry-IsRemainder saddr d (remainder d (v gaddr d e))))
      | inr (s, f) ↦ refresh_known-IsTable stats saddr d s e f
    ]
  ]

-- Every operation keeps the table in order: in each group the sources form a set that is not empty,
-- and exactly they have an interface. The kernel's packet counts may be any.
pub operations-IsTable :
    (stats : Stats) (if_index gaddr saddr : ℕ) (s : Source) (m : RoutingTable)
    → IsTable m
    → IsTable (set_source stats if_index gaddr s m)
      × IsTable (del_source gaddr saddr m)
      × IsTable (refresh_source_or_del_it_if_unused stats gaddr saddr m).1
operations-IsTable stats if_index gaddr saddr s m v = (
  set_source-IsTable gaddr m v stats if_index s,
  del_source-IsTable gaddr m v saddr,
  refresh-IsTable gaddr m v stats saddr,
)
