-- ===== src/Forwarding.antt =====
-- mcproxy/src/proxy/simple_mc_proxy_routing.cpp: which interfaces a source is forwarded to, and the
-- routes that are set. The filters of an interface are functions of the input interface, the group
-- and the source.
pub mod Loops
use mcproxy.Base.{
  ℕ, ◌*◌, Bool, true, false, not, ◌&&◌, ◌||◌, Option, none, some, List, [], ◌∷◌, map, ◌==◌,
  if◌then◌else◌, is_some, is_empty,
}
use mcproxy.MapOf.{lookup}
use mcproxy.TimersValues.{TimersValues}
use mcproxy.Message.{Source}
use mcproxy.World.{World}
use mcproxy.Querier.Records.{Querier}
use mcproxy.Querier.Forward.{ForwardList, suggest_to_forward_traffic}
use mcproxy.Querier.Invariant.{Timed}
use mcproxy.RoutingData.{RoutingTable, get_interface_map}
use mcproxy.MessageQueue.{MessageQueue}
use mcproxy.Text.{Text}
use mcproxy.Addr.{Addr}
use mcproxy.Rules.{Table}
use mcproxy.Interface.{
  RbInterfaceType, RbInterfaceDirection, RbRuleMatchingType, Interface, it_upstream, it_downstream,
  id_in, id_out, id_wildcard, rmt_all, rmt_first,
}
use mcproxy.Ending.{Ending}
use mcproxy.Token.{Token}
use mcproxy.Parser.{Parser}
use mcproxy.Configuration.{Configuration}

-- A null pointer to the interface is filters that let nothing pass.
pub record RouteInterface : Type 0 where
  pub index : ℕ
  pub match_output : ℕ → ℕ → ℕ → Bool
  pub match_input : ℕ → ℕ → ℕ → Bool

-- What the routing reads of its proxy instance: the upstreams in the order of their priority, the
-- downstreams with their queriers, which interfaces have a name, and the rule matching types of the
-- upstreams, `none` for a null pointer.
pub record Instance : Type 0 where
  pub upstreams : List RouteInterface
  pub downstreams : List (RouteInterface × Querier)
  pub has_name : ℕ → Bool
  pub input_rule : Option RbRuleMatchingType
  pub output_rule : Option RbRuleMatchingType

unfoldable pub find_upstream : ℕ → List RouteInterface → Option RouteInterface
find_upstream i [] = none
find_upstream i (r ∷ l) = if r.index == i then some r else find_upstream i l

unfoldable pub find_downstream : ℕ → List (RouteInterface × Querier) → Option RouteInterface
find_downstream i [] = none
find_downstream i ((r, q) ∷ l) = if r.index == i then some r else find_downstream i l

-- `proxy_instance::is_upstream` and `is_downstream`
abbrev pub is_upstream : Instance → ℕ → Bool
is_upstream p i = is_some (find_upstream i p.upstreams)

abbrev pub is_downstream : Instance → ℕ → Bool
is_downstream p i = is_some (find_downstream i p.downstreams)

-- `is_rule_matching_type` of the rule of one direction, where the type is `all` or `first`.
abbrev pub is_all : Option RbRuleMatchingType → Bool
is_all (some rmt_all) = true
is_all _ = false

abbrev pub is_first : Option RbRuleMatchingType → Bool
is_first (some rmt_first) = true
is_first _ = false

-- The end of `check_interface`: the filter of the interface that was found.
unfoldable pub check_filter :
    Instance → RbInterfaceDirection → Option RouteInterface → ℕ → ℕ → ℕ → Bool
check_filter p dir none input gaddr saddr = false
check_filter p id_in (some r) input gaddr saddr =
    p.has_name input && r.match_input input gaddr saddr
check_filter p id_out (some r) input gaddr saddr =
    p.has_name input && r.match_output input gaddr saddr
check_filter p id_wildcard (some r) input gaddr saddr = false

unfoldable pub check_interface :
    Instance → RbInterfaceType → RbInterfaceDirection → ℕ → ℕ → ℕ → ℕ → Bool
check_interface p it_upstream dir checking input gaddr saddr =
    check_filter p dir (find_upstream checking p.upstreams) input gaddr saddr
check_interface p it_downstream dir checking input gaddr saddr =
    check_filter p dir (find_downstream checking p.downstreams) input gaddr saddr

-- The loop over the upstreams for a source of a downstream interface.
unfoldable pub collect_upstreams : Instance → ℕ → ℕ → ℕ → List RouteInterface → List ℕ
collect_upstreams p input gaddr saddr [] = []
collect_upstreams p input gaddr saddr (u ∷ ups) =
    let rest = collect_upstreams p input gaddr saddr ups in
    if not (check_interface p it_upstream id_out u.index input gaddr saddr)
    then rest
    else if is_all p.output_rule
    then u.index ∷ rest
    else if is_first p.output_rule
    then u.index ∷ []
    else rest

-- The loop over the sources; it is left, with `false`, at a source whose input interface is unknown.
unfoldable pub collect_sources : Instance → List (ℕ × ℕ) → ℕ → List Source → ForwardList × Bool
collect_sources p inputs gaddr [] = ([], true)
collect_sources p inputs gaddr (s ∷ slist) =
    let rest = collect_sources p inputs gaddr slist in
    elim (lookup s.saddr inputs) [
      | none ↦ ([], false)
      | some input ↦ (
        (
          s,
          if is_downstream p input then collect_upstreams p input gaddr s.saddr p.upstreams else [],
        )
            ∷ rest.0,
        rest.1,
      )
    ]

-- `filter_fun`
unfoldable pub filter_fun : Instance → List (ℕ × ℕ) → ℕ → ℕ → ℕ → Bool
filter_fun p inputs gaddr output saddr = elim (lookup saddr inputs) [
  | none ↦ false
  | some input ↦
      if output == input
      then false
      else check_interface p it_downstream id_out output input gaddr saddr
]

-- The loop over the downstreams.
unfoldable pub suggest_all :
    Instance → List (ℕ × ℕ) → ℕ → List (RouteInterface × Querier) → ForwardList → ForwardList
suggest_all p inputs gaddr [] rt_list = rt_list
suggest_all p inputs gaddr ((r, q) ∷ l) rt_list =
    suggest_all p inputs gaddr l (
      suggest_to_forward_traffic q gaddr (λ saddr. filter_fun p inputs gaddr r.index saddr) rt_list)

unfoldable pub collect_interested_interfaces :
    Instance → RoutingTable → ℕ → List Source → ForwardList
collect_interested_interfaces p m gaddr slist =
    let inputs = get_interface_map gaddr m in
    let collected = collect_sources p inputs gaddr slist in
    if collected.1 then suggest_all p inputs gaddr p.downstreams collected.0 else collected.0

-- The calls of `set_routes`: by input interface, group, source, and output interfaces.
pub data RouteCall : Type 0 where
  del_route : ℕ → ℕ → ℕ → RouteCall
  add_route : ℕ → ℕ → ℕ → List ℕ → RouteCall

-- Whether a source is taken from its input interface.
unfoldable pub use_this_interface : Instance → ℕ → ℕ → ℕ → Bool
use_this_interface p input gaddr saddr =
    (is_upstream p input && check_interface p it_upstream id_in input input gaddr saddr)
    || (is_downstream p input && check_interface p it_downstream id_in input input gaddr saddr)

-- `virtual_if` is `get_virtual_if_index`.
unfoldable pub set_routes : (ℕ → ℕ) → Instance → RoutingTable → ℕ → ForwardList → List RouteCall
set_routes virtual_if p m gaddr [] = []
set_routes virtual_if p m gaddr ((s, out) ∷ l) =
    let rest = set_routes virtual_if p m gaddr l in
    elim (lookup s.saddr (get_interface_map gaddr m)) [
      | none ↦ rest
      | some input ↦
          if is_empty out
          then del_route (virtual_if input) gaddr s.saddr ∷ rest
          else if use_this_interface p input gaddr s.saddr
          then add_route (virtual_if input) gaddr s.saddr (map virtual_if out) ∷ rest
          else rest
    ]
