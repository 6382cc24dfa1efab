-- ===== src/RoutingData.antt =====
-- mcproxy/include/proxy/simple_routing_data.hpp and mcproxy/src/proxy/simple_routing_data.cpp: the
-- sources that the proxy hears, by group. `stats` is the packet count that the kernel gives for a
-- group and a source, `none` if the system call fails.
pub mod Entries
pub mod Store
pub mod Interfaces
use mcproxy.Base.{
  ℕ, ◌-◌, ◌*◌, ◌^◌, Bool, true, false, Option, none, some, List, [], ◌∷◌, ltb, ◌==◌, if◌then◌else◌,
  is_empty, ℤ, pos, negsuc,
}
use mcproxy.SourceList.{insert, erase, find?, contains, update}
use mcproxy.MapOf.{lookup, put, remove}
use mcproxy.TimersValues.{TimersValues}
use mcproxy.Message.{key, Source}
use mcproxy.World.{World}
use mcproxy.Querier.Records.{Querier}
use mcproxy.Querier.Invariant.{Timed}

pub record SrDataValue : Type 0 where
  pub source_list : List Source
  pub if_map : List (ℕ × ℕ)

abbrev pub RoutingTable : Type 0
RoutingTable = List (ℕ × SrDataValue)

abbrev pub Stats : Type 0
Stats = ℕ → ℕ → Option ℕ

-- A failed call counts as `true`, which is 1.
unfoldable pub get_current_packet_count : Stats → ℕ → ℕ → ℕ
get_current_packet_count stats gaddr saddr = elim (stats gaddr saddr) [ none ↦ 1 | some n ↦ n ]

-- `static_cast<unsigned long>` of a counter, and the assignment of an `unsigned long` to one.
unfoldable pub to_unsigned : ℤ → ℕ
to_unsigned (pos n) = n
to_unsigned (negsuc n) = 2 ^ 64 - 1 - n

unfoldable pub to_signed : ℕ → ℤ
to_signed n = if ltb n (2 ^ 63) then pos n else negsuc (2 ^ 64 - 1 - n)

unfoldable pub set_count : ℕ → Source → Source
unfolding to_signed
set_count n s = record s { retransmission_count = to_signed n }

-- The part of `set_source` for a group that is there.
unfoldable pub set_entry : Stats → ℕ → ℕ → Source → SrDataValue → SrDataValue
unfolding set_count get_current_packet_count
set_entry stats if_index gaddr s e =
    let counted = set_count (get_current_packet_count stats gaddr s.saddr) s in
    record {
      source_list =
          if contains key s.saddr e.source_list
          then insert key counted (erase key s.saddr e.source_list)
          else insert key s e.source_list;
      if_map = put s.saddr if_index e.if_map;
    }

unfoldable pub set_source : Stats → ℕ → ℕ → Source → RoutingTable → RoutingTable
unfolding set_entry
set_source stats if_index gaddr s m = elim (lookup gaddr m) [
  | none ↦ put gaddr (record { source_list = s ∷ []; if_map = (s.saddr, if_index) ∷ [] }) m
  | some e ↦ put gaddr (set_entry stats if_index gaddr s e) m
]

unfoldable pub del_entry : ℕ → SrDataValue → SrDataValue
del_entry saddr e = record {
  source_list = erase key saddr e.source_list;
  if_map = remove saddr e.if_map;
}

-- A group that lost its last source goes.
abbrev pub put_used : ℕ → SrDataValue → RoutingTable → RoutingTable
put_used gaddr e m = if is_empty e.source_list then remove gaddr m else put gaddr e m

unfoldable pub del_source : ℕ → ℕ → RoutingTable → RoutingTable
unfolding del_entry
del_source gaddr saddr m = elim (lookup gaddr m) [
  | none ↦ m
  | some e ↦ put_used gaddr (del_entry saddr e) m
]

-- Whether the source was refreshed, and the table. The source that did not count on is erased, and
-- what follows the inner `if` erases it once more.
unfoldable pub refresh_source_or_del_it_if_unused :
    Stats → ℕ → ℕ → RoutingTable → Bool × RoutingTable
unfolding del_entry set_count get_current_packet_count to_unsigned
refresh_source_or_del_it_if_unused stats gaddr saddr m = elim (lookup gaddr m) [
  | none ↦ (false, m)
  | some e ↦ elim (find? key saddr e.source_list) [
    | none ↦ (false, put_used gaddr (del_entry saddr e) m)
    | some s ↦
        let cnt = get_current_packet_count stats gaddr saddr in
        let refreshed = record e { source_list = update key saddr (set_count cnt) e.source_list } in
        if to_unsigned s.retransmission_count == cnt
        then (false, put_used gaddr (del_entry saddr (del_entry saddr e)) m)
        else (true, put gaddr refreshed m)
  ]
]

unfoldable pub get_available_sources : ℕ → RoutingTable → List Source
get_available_sources gaddr m = elim (lookup gaddr m) [ none ↦ [] | some e ↦ e.source_list ]

unfoldable pub get_interface_map : ℕ → RoutingTable → List (ℕ × ℕ)
get_interface_map gaddr m = elim (lookup gaddr m) [ none ↦ [] | some e ↦ e.if_map ]
