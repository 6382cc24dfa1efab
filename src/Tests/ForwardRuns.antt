-- ===== src/Tests/ForwardRuns.antt =====
-- What an instance with one upstream and one downstream forwards.
use mcproxy.Base.{ℕ, refl, true, some, [], ◌∷◌, All}
use mcproxy.RoutingData.{RoutingTable, get_interface_map}
use mcproxy.Interface.{rmt_all}
use mcproxy.Forwarding.{find_downstream, collect_interested_interfaces, RouteInterface, Instance}
use mcproxy.Forwarding.Loops.{NoLoop, collect_interested_interfaces-NoLoop, IsSplit}
use mcproxy.Tests.{test_querier, fresh_source}

abbrev open_interface : ℕ → RouteInterface
open_interface i = record { index = i; match_output = λ j g s. true; match_input = λ j g s. true }

abbrev test_instance : Instance
test_instance = record {
  upstreams = open_interface 8 ∷ [];
  downstreams = (open_interface 3, test_querier) ∷ [];
  has_name = λ i. true;
  input_rule = some rmt_all;
  output_rule = some rmt_all;
}

-- Source 7 is heard on the upstream, source 12 on the downstream.
abbrev test_table : RoutingTable
test_table =
    (
      5,
      record {
        source_list = fresh_source 7 ∷ fresh_source 12 ∷ [];
        if_map = (7, 8) ∷ (12, 3) ∷ [];
      },
    )
    ∷ []

test_instance-IsSplit : IsSplit test_instance
unfolding find_downstream
test_instance-IsSplit = record { apart = (refl, tt); indexes = (refl, tt) }

collect_interested_interfaces-NoLoop_example : All (NoLoop (get_interface_map 5 test_table)) (
    collect_interested_interfaces test_instance test_table 5
      (fresh_source 7 ∷ fresh_source 12 ∷ []))
collect_interested_interfaces-NoLoop_example =
    collect_interested_interfaces-NoLoop test_instance test_table 5
      (fresh_source 7 ∷ fresh_source 12 ∷ []) test_instance-IsSplit
