-- ===== src/ProxyInstance.antt =====
-- mcproxy/include/proxy/proxy_instance.hpp and mcproxy/src/proxy/proxy_instance.cpp: the interfaces of
-- a proxy instance, and the messages that configure it.
pub mod Upstreams
pub mod Registered
pub mod UpstreamMsgs
pub mod DownstreamMsgs
pub mod Registration
pub mod Forwarded
use mathlib.Core.Option
use mcproxy.Base.{
  ℕ, ◌*◌, Bool, false, ◌||◌, Option, none, some, List, [], ◌∷◌, map, ◌==◌, if◌then◌else◌, is_some,
  pos,
}
use mcproxy.SourceList.{insert}
use mcproxy.MapOf.{lookup, put, remove}
use mcproxy.Protocol.{GroupMemProtocol}
use mcproxy.TimersValues.{TimersValues}
use mcproxy.World.{World}
use mcproxy.Querier.Records.{Querier}
use mcproxy.Querier.Invariant.{Timed}
use mcproxy.MessageQueue.{MessageQueue}
use mcproxy.Text.{Text}
use mcproxy.Addr.{Addr}
use mcproxy.Rules.{Table}
use mcproxy.Interface.{
  matching_binding, RbType, RbInterfaceType, RbInterfaceDirection, RuleBinding, Interface,
  rbt_rule_matching, it_upstream, id_in, id_out, rmt_all, rmt_first,
}
use mcproxy.Ending.{Ending}
use mcproxy.Token.{Token}
use mcproxy.Parser.{Parser}
use mcproxy.Configuration.{Configuration}
use mcproxy.Forwarding.{RouteInterface}
use mcproxy.Receiver.{registrate_interface, del_relevant_interface, Receiver}
use mcproxy.Receiver.Registered.{Received}
use mcproxy.VirtualInterfaces.{Interfaces}
use mcproxy.Querier.Start.{new_querier, end_querier}

-- `upstream_infos`; they compare by their priorities.
pub record UpstreamInfo : Type 0 where
  pub priority : ℕ
  pub interface : RouteInterface

-- The calls of `m_routing`, by the interface's index.
pub data RoutingCall : Type 0 where
  add_vif del_vif : ℕ → RoutingCall

-- `upstreams` is the `std::set`, `downstreams` the `std::map`. The newest call stands first; `ended` has
-- what the queriers left that were deleted.
pub record ProxyInstance : Type 0 where
  pub group_mem_protocol : GroupMemProtocol
  pub upstreams : List UpstreamInfo
  pub downstreams : List (ℕ × (RouteInterface × Querier))
  pub upstream_input_rule : RuleBinding
  pub upstream_output_rule : RuleBinding
  pub receiver : Receiver
  pub calls : List RoutingCall
  pub ended : List World

abbrev pub priority_of : UpstreamInfo → ℕ
priority_of u = u.priority

unfoldable pub has_upstream : ℕ → List UpstreamInfo → Bool
has_upstream i [] = false
has_upstream i (u ∷ l) = (u.interface.index == i) || has_upstream i l

abbrev pub has_downstream : ℕ → ProxyInstance → Bool
has_downstream i p = is_some (lookup i p.downstreams)

-- What a message of the configuration carries; the rule is `none` for a null pointer.
pub data ConfigMsg : Type 0 where
  add_downstream : RouteInterface → TimersValues → ConfigMsg
  del_downstream : ℕ → ConfigMsg
  -- with the priority
  add_upstream : ℕ → RouteInterface → ConfigMsg
  del_upstream : ℕ → ConfigMsg
  set_global_rule_binding : Option RuleBinding → ConfigMsg

-- The surroundings at the time of a message: the clock, the next number of the heap, and the answers of
-- the sender.
pub record Surroundings : Type 0 where
  pub now : ℕ
  pub next_id : ℕ
  pub joins : ℕ → Bool

-- The constructor, with empty sets and the rules that hold without any configuration.
unfoldable pub new_proxy_instance : Receiver → GroupMemProtocol → Text → ProxyInstance
new_proxy_instance r gmp name = record {
  group_mem_protocol = gmp;
  upstreams = [];
  downstreams = [];
  upstream_input_rule = matching_binding name it_upstream (42 ∷ []) id_in rmt_first (pos 0);
  upstream_output_rule = matching_binding name it_upstream (42 ∷ []) id_out rmt_all (pos 0);
  receiver = record r { relevant_if_index = [] };
  calls = [];
  ended = [];
}

-- `add_vif` and `registrate_interface`, `del_vif` and `del_interface`
unfoldable pub register : ℕ → ProxyInstance → ProxyInstance
register i p = record p {
  receiver = registrate_interface p.receiver i;
  calls = add_vif i ∷ p.calls;
}

unfoldable pub unregister : ℕ → ProxyInstance → ProxyInstance
unregister i p = record p {
  receiver = del_relevant_interface p.receiver i;
  calls = del_vif i ∷ p.calls;
}

-- The erasure of the first upstream with the index.
unfoldable pub erase_upstream : ℕ → List UpstreamInfo → List UpstreamInfo
erase_upstream i [] = []
erase_upstream i (u ∷ l) =
    let rest = erase_upstream i l in if u.interface.index == i then l else u ∷ rest

abbrev pub new_world : Surroundings → ℕ → TimersValues → World
new_world e i tv = record {
  if_index = i;
  timers_values = tv;
  now = e.now;
  next_id = e.next_id;
  actions = [];
}

-- The five instructions. `none`: the constructor of a querier throws.
unfoldable pub handle_add_downstream :
    Surroundings → RouteInterface → TimersValues → ProxyInstance → Option ProxyInstance
handle_add_downstream e r tv p =
    let i = r.index in
    let p1 = if has_upstream i p.upstreams then p else register i p in
    if has_downstream i p
    then some p
    else Option.map (λ q. record p1 { downstreams = put i (r, q) p.downstreams })
        (new_querier e.joins (new_world e i tv) p.group_mem_protocol)

unfoldable pub handle_del_downstream : Surroundings → ℕ → ProxyInstance → ProxyInstance
handle_del_downstream e i p = elim (lookup i p.downstreams) [
  | none ↦ p
  | some d ↦
      let p1 = if has_upstream i p.upstreams then p else unregister i p in
      record p1 { downstreams = remove i p.downstreams; ended = end_querier e.joins d.1 ∷ p.ended }
]

unfoldable pub handle_add_upstream : ℕ → RouteInterface → ProxyInstance → ProxyInstance
handle_add_upstream priority r p =
    let p1 = if has_downstream r.index p then p else register r.index p in
    let u : UpstreamInfo = record { priority = priority; interface = r } in
    if has_upstream r.index p.upstreams
    then p
    else record p1 { upstreams = insert priority_of u p.upstreams }

unfoldable pub handle_del_upstream : ℕ → ProxyInstance → ProxyInstance
handle_del_upstream i p =
    let p1 = if has_downstream i p then p else unregister i p in
    if has_upstream i p.upstreams then record p1 { upstreams = erase_upstream i p.upstreams } else p

-- The rule by its type, the type of its interface, and its direction.
unfoldable pub set_rule :
    RbType → RbInterfaceType → RbInterfaceDirection → RuleBinding → ProxyInstance → ProxyInstance
set_rule rbt_rule_matching it_upstream id_in rb p = record p { upstream_input_rule = rb }
set_rule rbt_rule_matching it_upstream id_out rb p = record p { upstream_output_rule = rb }
set_rule _ _ _ rb p = p

unfoldable pub set_global_rule : Option RuleBinding → ProxyInstance → ProxyInstance
set_global_rule none p = p
set_global_rule (some rb) p =
    set_rule rb.rule_binding_type rb.interface_type rb.filter_direction rb p

unfoldable pub handle_config : Surroundings → ConfigMsg → ProxyInstance → Option ProxyInstance
handle_config e (add_downstream r tv) p = handle_add_downstream e r tv p
handle_config e (del_downstream i) p = some (handle_del_downstream e i p)
handle_config e (add_upstream priority r) p = some (handle_add_upstream priority r p)
handle_config e (del_upstream i) p = some (handle_del_upstream i p)
handle_config e (set_global_rule_binding rb) p = some (set_global_rule rb p)
