-- ===== src/ProxyStart.antt =====
-- mcproxy/src/proxy/proxy.cpp: `start_proxy_instances`, the messages with which the proxy instances of
-- the configuration are set up. `if_nametoindex` and `if_indextoname` are the system's functions.
pub mod Setup
pub mod Steps
pub mod Started
pub mod Reordered
pub mod Messages
use mathlib.Core.Option
use mcproxy.Base.{
  ℕ, zero, suc, ◌+◌, ◌*◌, ◌/◌, ◌%◌, ◌^◌, Bool, false, not, Option, none, some, List, [], ◌∷◌, ◌++◌,
  map, ◌==◌, if◌then◌else◌, All, ℤ, pos, negsuc,
}
use mcproxy.TimersValues.{TimersValues}
use mcproxy.World.{World}
use mcproxy.Querier.Records.{Querier}
use mcproxy.Querier.Invariant.{Timed}
use mcproxy.Aggregation.Merge.{asks}
use mcproxy.MessageQueue.{MessageQueue}
use mcproxy.Text.{Text}
use mcproxy.Addr.{Addr, Family, unspec, ipv4, ipv6, af_unspec, af_inet, af_inet6}
use mcproxy.Rules.{Table}
use mcproxy.Interface.{match_output_filter, match_input_filter, Interface, InstanceDefinition}
use mcproxy.Ending.{Ending, thrown}
use mcproxy.Token.{Token}
use mcproxy.Parser.{Parser}
use mcproxy.Configuration.{configuration, Configuration}
use mcproxy.Forwarding.{RouteInterface}
use mcproxy.Receiver.{Receiver}
use mcproxy.Receiver.Registered.{Received}
use mcproxy.VirtualInterfaces.{Interfaces}
use mcproxy.ProxyInstance.{
  handle_config, ProxyInstance, ConfigMsg, Surroundings, add_downstream, add_upstream,
  set_global_rule_binding,
}

-- `get_default_priority_interval`
abbrev pub default_priority_interval : ℕ
default_priority_interval = 100

-- An address of the family that a proxy instance works with, from its number.
unfoldable pub addr_of : Family → ℕ → Addr
addr_of af_inet n = ipv4 n
addr_of af_inet6 n =
    ipv6 (n / 2 ^ 96 % 2 ^ 32) (n / 2 ^ 64 % 2 ^ 32) (n / 2 ^ 32 % 2 ^ 32) (n % 2 ^ 32)
addr_of af_unspec n = unspec

abbrev pub is_true : Option Bool → Bool
is_true none = false
is_true (some b) = b

module _ (if_nametoindex : Text → ℕ) (if_indextoname : ℕ → Text) (family : Family) where
  -- An interface of the configuration as the routing asks it, beside the tables `ts`.
  unfoldable pub route_interface : List Table → Interface → RouteInterface
  route_interface ts u = record {
    index = if_nametoindex u.name;
    match_output = λ j g s.
        is_true (match_output_filter ts u (if_indextoname j) (addr_of family g) (addr_of family s));
    match_input = λ j g s.
        is_true (match_input_filter ts u (if_indextoname j) (addr_of family g) (addr_of family s));
  }

  abbrev known : Interface → Bool
  known u = not (if_nametoindex u.name == 0)

  -- The loops over the upstream and the downstream interfaces; `none`: "interface not found" is thrown.
  unfoldable pub upstream_msgs : List Table → ℕ → List Interface → Option (List ConfigMsg)
  upstream_msgs ts priority [] = some []
  upstream_msgs ts priority (u ∷ l) =
      let rest = upstream_msgs ts ((priority + default_priority_interval) % 2 ^ 32) l in
      if known u
      then Option.map (λ msgs. add_upstream priority (route_interface ts u) ∷ msgs) rest
      else none

  unfoldable pub downstream_msgs :
      List Table → TimersValues → List Interface → Option (List ConfigMsg)
  downstream_msgs ts tv [] = some []
  downstream_msgs ts tv (d ∷ l) =
      let rest = downstream_msgs ts tv l in
      if known d
      then Option.map (λ msgs. add_downstream (route_interface ts d) tv ∷ msgs) rest
      else none

  -- All messages to one instance.
  unfoldable pub start_msgs :
      List Table → TimersValues → InstanceDefinition → Option (List ConfigMsg)
  start_msgs ts tv d = elim (upstream_msgs ts 0 d.upstreams) [
    | none ↦ none
    | some ups ↦
        Option.map
          (λ downs. map (λ r. set_global_rule_binding (some r)) d.global_settings ++ (ups ++ downs))
          (downstream_msgs ts tv d.downstreams)
  ]

-- `++` on an `int`; the numbers of tables stay far below its bound.
unfoldable pub inc : ℤ → ℤ
inc (pos n) = pos (suc n)
inc (negsuc zero) = pos 0
inc (negsuc (suc n)) = negsuc n

-- The table numbers of the instances: those that the user selected, and a counter for the others;
-- zero where there is only one instance.
unfoldable pub table_numbers : Bool → ℤ → List InstanceDefinition → List ℤ
table_numbers single n [] = []
table_numbers single n (d ∷ l) =
    let counted : ℤ = if single then pos 0 else inc n in
    let number : ℤ = if d.user_selected_table_number then d.table_number else counted in
    number ∷ table_numbers single number l

-- The worker: the messages one after another, in the order in which its queue gives them, the `n`th with
-- the surroundings `e n`.
unfoldable pub run_configs :
    (ℕ → Surroundings) → ℕ → List ConfigMsg → ProxyInstance → Option ProxyInstance
run_configs e n [] p = some p
run_configs e n (m ∷ l) p = elim (handle_config (e n) m p) [
  | none ↦ none
  | some p' ↦ run_configs e (suc n) l p'
]
