-- ===== src/Aggregation.antt =====
-- mcproxy/include/proxy/simple_mc_proxy_routing.hpp and
-- mcproxy/src/proxy/simple_mc_proxy_routing.cpp: `interface_memberships`, which gathers what the
-- downstream interfaces ask for into one record per upstream interface.
pub mod Merge
pub mod First
pub mod Mutex
pub mod Counts
pub mod Single
use mcproxy.Base.{ℕ, ◌*◌, Bool, Option, none, some, List, [], ◌∷◌, ◌==◌, if◌then◌else◌, is_empty}
use mcproxy.SourceList.{union, inter, diff}
use mcproxy.Protocol.{McFilter, include_mode, exclude_mode}
use mcproxy.TimersValues.{TimersValues}
use mcproxy.Message.{key, Source}
use mcproxy.World.{World}
use mcproxy.Querier.Records.{Querier}
use mcproxy.Querier.Invariant.{Timed}

pub record SourceState : Type 0 where
  pub mc_filter : McFilter
  pub source_list : List Source

-- `source_state()`
abbrev pub empty_state : SourceState
empty_state = record { mc_filter = include_mode; source_list = [] }

unfoldable pub merge_membership_infos : SourceState → SourceState → SourceState
merge_membership_infos to from = elim to.mc_filter [
  | include_mode ↦ elim from.mc_filter [
    | include_mode ↦ record to { source_list = union key to.source_list from.source_list }
    | exclude_mode ↦ record {
      mc_filter = exclude_mode;
      source_list = diff key from.source_list to.source_list;
    }
  ]
  | exclude_mode ↦ elim from.mc_filter [
    | include_mode ↦ record to { source_list = diff key to.source_list from.source_list }
    | exclude_mode ↦ record to { source_list = inter key to.source_list from.source_list }
  ]
]

-- The loop of `get_group_memberships`.
unfoldable pub merge_all : SourceState → List SourceState → SourceState
unfolding merge_membership_infos
merge_all result [] = result
merge_all result (e ∷ l) = merge_all (merge_membership_infos result e) l

-- `m_data`: the states gathered for each upstream interface, in their order.
abbrev pub Memberships : Type 0
Memberships = List (ℕ × List SourceState)

-- The aggregated state and what is left of `m_data`. `none`: undefined behaviour, `m_data` was
-- empty.
unfoldable pub get_group_memberships : ℕ → Memberships → Option (SourceState × Memberships)
unfolding merge_all
get_group_memberships upstream_if_index [] = none
get_group_memberships upstream_if_index ((i, l) ∷ rest) = some (
    if i == upstream_if_index
    then (merge_all empty_state l, rest)
    else (empty_state, (i, l) ∷ rest))

-- A downstream interface with what its querier answers: `match_output_filter(upstream, gaddr, saddr)`
-- of its rules, for the group in question.
pub record Downstream : Type 0 where
  pub state : SourceState
  pub match_output_filter : ℕ → ℕ → Bool

-- An upstream interface: its index and its `match_input_filter(upstream, gaddr, saddr)`.
pub record Upstream : Type 0 where
  pub if_index : ℕ
  pub match_input_filter : ℕ → Bool

-- The loop over the sources of one downstream interface: what stays for this upstream interface, and
-- what is handed on to the next.
unfoldable pub sort_out : Upstream → (ℕ → Bool) → List Source → List Source × List Source
sort_out u output [] = ([], [])
sort_out u output (s ∷ l) =
    let (kept, passed) = sort_out u output l in
    if output s.saddr
    then (if u.match_input_filter s.saddr then (s ∷ kept, passed) else (kept, s ∷ passed))
    else (kept, passed)

-- One round of the outer loop: the states for this upstream interface, and the downstream interfaces
-- that have sources left.
unfoldable pub process_upstream : Upstream → List Downstream → List SourceState × List Downstream
unfolding sort_out
process_upstream u [] = ([], [])
process_upstream u (d ∷ l) =
    let (states, rest) = process_upstream u l in
    let (kept, passed) = sort_out u (d.match_output_filter u.if_index) d.state.source_list in
    (
      record (d.state) { source_list = kept } ∷ states,
      if is_empty passed
          then rest
          else record d { state = record (d.state) { source_list = passed } } ∷ rest,
    )

unfoldable pub process_upstream_in_first : List Upstream → List Downstream → Memberships
unfolding process_upstream
process_upstream_in_first [] downs = []
process_upstream_in_first (u ∷ ups) downs =
    let (states, rest) = process_upstream u downs in
    (u.if_index, states) ∷ process_upstream_in_first ups rest
