-- ===== src/Tests/InstanceRuns.antt =====
-- Proxy instances, their virtual interfaces, and the events of the routing: mcproxy/src/proxy.
use mcproxy.Base.{ℕ, ◌≡◌, refl, true, false, not, none, some, List, [], ◌∷◌, ◌==◌, length, pos}
use mcproxy.Protocol.{include_mode, exclude_mode, igmpv3}
use mcproxy.TimersValues.{default_timers_values}
use mcproxy.Aggregation.{Memberships, Downstream, Upstream}
use mcproxy.Aggregation.Mutex.{process_upstream_in_mutex}
use mcproxy.RoutingData.{get_available_sources}
use mcproxy.Text.{Text, codes}
use mcproxy.Addr.{af_inet}
use mcproxy.Interface.{new_interface, InstanceDefinition, rmt_all, rmt_mutex}
use mcproxy.Forwarding.{RouteInterface, Instance}
use mcproxy.Receiver.{Receiver}
use mcproxy.VirtualInterfaces.{new_interfaces}
use mcproxy.VirtualInterfaces.Consistent.{run_vifs, run_vifs-IsVifTable, IsVifTable, adds, deletes}
use mcproxy.ProxyInstance.{
  new_proxy_instance, ProxyInstance, ConfigMsg, Surroundings, add_downstream, add_upstream,
}
use mcproxy.ProxyStart.{route_interface}
use mcproxy.RoutingEvents.{act, routes, event_querier_state_change, RoutingState}
use mcproxy.RoutingEvents.Records.{records_of, event_querier_state_change-records}
use mcproxy.Tests.{test_querier, fresh_source}

-- Two interfaces are added, one goes, and another one comes.
run_vifs-IsVifTable_example : IsVifTable (
    run_vifs 32 32
      (adds (λ i. not (i == 0)) 3
        ∷ adds (λ i. not (i == 0)) 5
        ∷ deletes 3
        ∷ adds (λ i. not (i == 0)) 7
        ∷ [])
      (new_interfaces af_inet true))
run_vifs-IsVifTable_example =
    run_vifs-IsVifTable 32 32 af_inet true
      (adds (λ i. not (i == 0)) 3
        ∷ adds (λ i. not (i == 0)) 5
        ∷ deletes 3
        ∷ adds (λ i. not (i == 0)) 7
        ∷ [])
      (refl, (refl, (tt, (refl, tt))))

abbrev any_upstream : ℕ → Upstream
any_upstream i = record { if_index = i; match_input_filter = λ s. true }

-- A downstream interface that refuses 9, and one that asks for 9 and 12.
abbrev refusing_downstream : Downstream
refusing_downstream = record {
  state = record { mc_filter = exclude_mode; source_list = fresh_source 9 ∷ [] };
  match_output_filter = λ u s. u == 2;
}

abbrev other_downstream : Downstream
other_downstream = record {
  state = record { mc_filter = include_mode; source_list = fresh_source 9 ∷ fresh_source 12 ∷ [] };
  match_output_filter = λ u s. true;
}

abbrev mutex_run : Memberships
mutex_run =
    process_upstream_in_mutex ((9, 1) ∷ []) (λ i. i == 1) (any_upstream 1 ∷ any_upstream 2 ∷ [])
      (refusing_downstream ∷ other_downstream ∷ [])

abbrev test_receiver : Receiver
test_receiver = record {
  get_if_index_of_vif = λ v. 0;
  get_if_index_of_addr = λ a. 0;
  relevant_if_index = [];
}

abbrev pub open_interface : ℕ → RouteInterface
open_interface i = record { index = i; match_output = λ j g s. true; match_input = λ j g s. true }

abbrev pub test_surroundings : Surroundings
test_surroundings = record { now = 0; next_id = 0; joins = λ g. true }

abbrev pub new_instance : ProxyInstance
new_instance = new_proxy_instance test_receiver igmpv3 []

-- An interface's index is the length of its name.
abbrev test_definition : InstanceDefinition
test_definition = record {
  instance = codes "lab";
  table_number = pos 0;
  user_selected_table_number = false;
  upstreams = new_interface (codes "eth0") ∷ new_interface (codes "tun10") ∷ [];
  downstreams = new_interface (codes "br0") ∷ [];
  global_settings = [];
}

abbrev route_of : Text → RouteInterface
route_of name = route_interface (λ n. length n) (λ i. []) af_inet [] (new_interface name)

abbrev test_msgs : List ConfigMsg
test_msgs =
    add_upstream 0 (route_of (codes "eth0"))
    ∷ add_upstream 100 (route_of (codes "tun10"))
    ∷ add_downstream (route_of (codes "br0")) default_timers_values
    ∷ []

-- The queue gives the second message first.
abbrev queued_msgs : List ConfigMsg
queued_msgs =
    add_upstream 100 (route_of (codes "tun10"))
    ∷ add_upstream 0 (route_of (codes "eth0"))
    ∷ add_downstream (route_of (codes "br0")) default_timers_values
    ∷ []

-- An instance with the rule type mutex.
abbrev mutex_instance : Instance
mutex_instance = record {
  upstreams = open_interface 8 ∷ [];
  downstreams = (open_interface 3, test_querier) ∷ [];
  has_name = λ i. true;
  input_rule = some rmt_mutex;
  output_rule = some rmt_all;
}

abbrev pub test_state : RoutingState
test_state = record {
  table = (5, record { source_list = fresh_source 7 ∷ []; if_map = (7, 8) ∷ [] }) ∷ [];
  next_id = 40;
  actions = [];
}

event_querier_state_change-records_example :
    event_querier_state_change (λ g s. none) (λ i. i) mutex_instance 5 test_state
    ≡ some (
        act (records_of mutex_instance test_state.table mutex_instance.input_rule 5) (
          act
            (routes
              (λ g s. none)
              (λ i. i)
              mutex_instance
              test_state.table
              5
              (get_available_sources 5 test_state.table))
            test_state))
event_querier_state_change-records_example =
    event_querier_state_change-records (λ g s. none) (λ i. i) mutex_instance 5 test_state
