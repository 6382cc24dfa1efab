-- ===== src/RoutingEvents.antt =====
-- mcproxy/src/proxy/simple_mc_proxy_routing.cpp: the handlers of its events. `stats` are the kernel's
-- packet counts, `virtual_if` is `get_virtual_if_index`.
pub mod Records
use mathlib.Core.Option
use mcproxy.Base.{
  ℕ, suc, ◌*◌, Bool, true, false, not, ◌&&◌, Option, none, some, List, [], ◌∷◌, ◌++◌, map, ◌==◌,
  if◌then◌else◌,
}
use mcproxy.SourceList.{find?, update}
use mcproxy.MapOf.{lookup, put}
use mcproxy.Protocol.{McFilter}
use mcproxy.TimersValues.{TimersValues}
use mcproxy.Message.{key, new_source, TimerMsg, Source, source_timer_msg}
use mcproxy.World.{World}
use mcproxy.Querier.Records.{Querier}
use mcproxy.Querier.Forward.{get_group_membership_infos}
use mcproxy.Querier.Invariant.{Timed}
use mcproxy.Aggregation.{
  Memberships, get_group_memberships, process_upstream_in_first, SourceState, Downstream, Upstream,
}
use mcproxy.Aggregation.Mutex.{process_upstream_in_mutex}
use mcproxy.RoutingData.{
  RoutingTable, Stats, set_source, refresh_source_or_del_it_if_unused, get_available_sources,
  get_interface_map,
}
use mcproxy.MessageQueue.{MessageQueue}
use mcproxy.Text.{Text}
use mcproxy.Addr.{Addr}
use mcproxy.Rules.{Table}
use mcproxy.Interface.{
  match_output_filter, match_input_filter, RbRuleMatchingType, Interface, rmt_first, rmt_mutex,
}
use mcproxy.Ending.{Ending}
use mcproxy.Token.{Token}
use mcproxy.Parser.{Parser}
use mcproxy.Configuration.{Configuration}
use mcproxy.Forwarding.{
  is_upstream, collect_interested_interfaces, set_routes, RouteInterface, Instance, RouteCall,
  del_route,
}
use mcproxy.Receiver.{Receiver}
use mcproxy.Receiver.Registered.{Received}
use mcproxy.VirtualInterfaces.{Interfaces}
use mcproxy.ProxyInstance.{ProxyInstance}

-- `m_timing->add_time` for a new message, by the interface and its index, the group and the source;
-- the routes; and `m_sender->send_record` for an upstream interface and a group.
pub data RoutingAction : Type 0 where
  adds_source_time : ℕ → ℕ → ℕ → ℕ → RoutingAction
  calls_route : RouteCall → RoutingAction
  sends_record : ℕ → ℕ → SourceState → RoutingAction

-- The oldest action stands first. A `new_source_timer_msg` of a source stands in the table as a message of
-- which only the number is read.
pub record RoutingState : Type 0 where
  pub table : RoutingTable
  pub next_id : ℕ
  pub actions : List RoutingAction

abbrev pub act : List RoutingAction → RoutingState → RoutingState
act l st = record st { actions = st.actions ++ l }

-- `set_source_timer`
unfoldable pub set_source_timer : ℕ → ℕ → ℕ → RoutingState → TimerMsg × RoutingState
set_source_timer if_index gaddr saddr st = (
  record {
    id = st.next_id;
    type = source_timer_msg;
    if_index = if_index;
    gaddr = gaddr;
    end_time = 0;
    is_used_as_source_timer = false;
  },
  record st {
    next_id = suc st.next_id;
    actions = st.actions ++ (adds_source_time st.next_id if_index gaddr saddr ∷ []);
  },
)

-- What the aggregation asks of the interfaces for one group.
unfoldable pub upstreams_for : Instance → ℕ → List Upstream
upstreams_for p gaddr =
    map
      (λ u. record {
        if_index = u.index;
        match_input_filter = λ saddr. u.match_input u.index gaddr saddr;
      })
      p.upstreams

-- `source_state(pair)`
abbrev pub source_state : McFilter × List Source → SourceState
source_state p = record { mc_filter = p.0; source_list = p.1 }

unfoldable pub downstreams_for : Instance → ℕ → List Downstream
downstreams_for p gaddr =
    map
      (λ d. record {
        state = source_state (get_group_membership_infos d.1 gaddr);
        match_output_filter = λ u saddr. d.0.match_output u gaddr saddr;
      })
      p.downstreams

-- The constructor of `interface_memberships`.
unfoldable pub interface_memberships :
    Instance → RoutingTable → RbRuleMatchingType → ℕ → Memberships
interface_memberships p table rmt gaddr = elim rmt [
  | rmt_first ↦ process_upstream_in_first (upstreams_for p gaddr) (downstreams_for p gaddr)
  | _ ↦
      process_upstream_in_mutex (get_interface_map gaddr table) (is_upstream p)
        (upstreams_for p gaddr) (downstreams_for p gaddr)
]

-- The loop of `process_membership_aggregation`. `none`: `get_group_memberships` met an empty `m_data`.
unfoldable pub send_memberships :
    ℕ → List RouteInterface → Memberships → Option (List RoutingAction)
send_memberships gaddr [] m = some []
send_memberships gaddr (u ∷ ups) m = elim (get_group_memberships u.index m) [
  | none ↦ none
  | some (st, m') ↦
      Option.map (λ l. sends_record u.index gaddr st ∷ l) (send_memberships gaddr ups m')
]

unfoldable pub process_membership_aggregation :
    Instance → RoutingTable → RbRuleMatchingType → ℕ → Option (List RoutingAction)
process_membership_aggregation p table rmt gaddr =
    let sent = send_memberships gaddr p.upstreams (interface_memberships p table rmt gaddr) in
    elim rmt [ rmt_first ↦ sent | rmt_mutex ↦ sent | _ ↦ some [] ]

abbrev pub is_mutex : Option RbRuleMatchingType → Bool
is_mutex (some rmt_mutex) = true
is_mutex _ = false

-- The aggregation that two of the events make for the rule type mutex.
unfoldable pub aggregate_mutex : Instance → RoutingTable → ℕ → Option (List RoutingAction)
aggregate_mutex p table gaddr =
    if is_mutex p.input_rule
    then process_membership_aggregation p table rmt_mutex gaddr
    else some []

module _ (stats : Stats) (virtual_if : ℕ → ℕ) (p : Instance) where
  -- `set_routes` with what `collect_interested_interfaces` gives.
  abbrev pub routes : RoutingTable → ℕ → List Source → List RoutingAction
  routes table gaddr slist =
      map calls_route
        (set_routes virtual_if p table gaddr (collect_interested_interfaces p table gaddr slist))

  unfoldable pub event_new_source : ℕ → ℕ → ℕ → RoutingState → Option RoutingState
  event_new_source if_index gaddr saddr st =
      let (timer, st1) = set_source_timer if_index gaddr saddr st in
      let s = record (new_source saddr) { shared_source_timer = some timer } in
      let table = set_source stats if_index gaddr s st1.table in
      let st2 = act (routes table gaddr (new_source saddr ∷ [])) (record st1 { table = table }) in
      Option.map (λ l. act l st2) (aggregate_mutex p table gaddr)

  unfoldable pub event_querier_state_change : ℕ → RoutingState → Option RoutingState
  event_querier_state_change gaddr st =
      let st1 = act (routes st.table gaddr (get_available_sources gaddr st.table)) st in
      let records : Option (List RoutingAction) = elim p.input_rule [
        | none ↦ some []
        | some rmt ↦ process_membership_aggregation p st.table rmt gaddr
      ] in
      Option.map (λ l. act l st1) records

  -- A write through the iterator to a source of the table.
  abbrev pub set_shared_timer : ℕ → ℕ → TimerMsg → RoutingTable → RoutingTable
  set_shared_timer gaddr saddr timer m = elim (lookup gaddr m) [
    | none ↦ m
    | some e ↦
        put gaddr
          (record e {
            source_list =
                update key saddr (λ s. record s { shared_source_timer = some timer }) e.source_list;
          })
          m
  ]

  -- The part for a timer that is the one of its source: the source counts on, or it goes.
  unfoldable pub maintain_source : ℕ → ℕ → ℕ → RoutingState → Option RoutingState
  maintain_source if_index gaddr saddr st =
      let (refreshed, table) = refresh_source_or_del_it_if_unused stats gaddr saddr st.table in
      let st1 = record st { table = table } in
      let (timer, st2) = set_source_timer if_index gaddr saddr st1 in
      let gone = act (calls_route (del_route (virtual_if if_index) gaddr saddr) ∷ []) st1 in
      if refreshed
      then some (record st2 { table = set_shared_timer gaddr saddr timer st2.table })
      else Option.map (λ l. act l gone) (aggregate_mutex p table gaddr)

  -- `msg.unique()` is an input; `id` is the number of the message.
  unfoldable pub timer_triggerd_maintain_routing_table :
      Bool → ℕ → ℕ → ℕ → ℕ → RoutingState → Option RoutingState
  timer_triggerd_maintain_routing_table unique id if_index gaddr saddr st =
      let is_current : Bool = elim (find? key saddr (get_available_sources gaddr st.table)) [
        | none ↦ false
        | some s ↦ elim s.shared_source_timer [ none ↦ false | some t ↦ t.id == id ]
      ] in
      if not unique && is_current then maintain_source if_index gaddr saddr st else some st
