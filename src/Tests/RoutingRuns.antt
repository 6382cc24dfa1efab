-- ===== src/Tests/RoutingRuns.antt =====
-- The theorems on what the routing asks for at concrete groups and interfaces.
use mcproxy.Base.{ℕ, ◌≡◌, refl, true, ◌&&◌, ◌||◌, [], ◌∷◌, arith, ◌==◌}
use mcproxy.Protocol.{include_mode, exclude_mode}
use mcproxy.Querier.Forward.{
  ForwardList, push_interface, suggest_to_forward_traffic, get_group_membership_infos,
}
use mcproxy.Querier.Agreement.{asks_for, suggest-agrees}
use mcproxy.Aggregation.{
  merge_membership_infos, process_upstream_in_first, SourceState, Downstream, Upstream,
}
use mcproxy.Aggregation.Merge.{asks, HasSet, merge-asks}
use mcproxy.Aggregation.First.{arrives, any_named, gathered_at, first-gathered}
use mcproxy.Tests.{test_querier, fresh_source, of_exclude}

abbrev forward_list : ForwardList
forward_list = (fresh_source 9, 1 ∷ []) ∷ (fresh_source 12, []) ∷ []

suggest-agrees_example :
    suggest_to_forward_traffic test_querier 5 (λ s. true) forward_list
    ≡ push_interface
        (λ s. asks_for (get_group_membership_infos test_querier 5) s && true)
        3
        forward_list
suggest-agrees_example = suggest-agrees test_querier 5 (λ s. true) forward_list refl

abbrev including_state : SourceState
including_state = record {
  mc_filter = include_mode;
  source_list = fresh_source 9 ∷ fresh_source 12 ∷ [];
}

abbrev excluding_state : SourceState
excluding_state = record { mc_filter = exclude_mode; source_list = fresh_source 9 ∷ [] }

merge-asks_example :
    HasSet (merge_membership_infos including_state excluding_state)
    × ((saddr : ℕ)
        → asks (merge_membership_infos including_state excluding_state) saddr
          ≡ (asks including_state saddr || asks excluding_state saddr))
merge-asks_example =
    merge-asks including_state excluding_state (omega arith, (omega arith, tt)) (omega arith, tt)

abbrev closed_upstream : Upstream
closed_upstream = record { if_index = 1; match_input_filter = λ s. s == 12 }

abbrev open_upstream : Upstream
open_upstream = record { if_index = 2; match_input_filter = λ s. true }

abbrev test_downstream : Downstream
test_downstream = record { state = including_state; match_output_filter = λ u s. true }

abbrev excluding_downstream : Downstream
excluding_downstream = record { state = excluding_state; match_output_filter = λ u s. true }

first-gathered_example :
    gathered_at of_exclude 1 9 (
      process_upstream_in_first
        (closed_upstream ∷ open_upstream ∷ [])
        (test_downstream ∷ excluding_downstream ∷ []))
    ≡ any_named of_exclude
        (arrives (closed_upstream ∷ []) open_upstream 9)
        9
        (test_downstream ∷ excluding_downstream ∷ [])
first-gathered_example =
    first-gathered of_exclude (closed_upstream ∷ []) [] open_upstream
      (test_downstream ∷ excluding_downstream ∷ []) 9
