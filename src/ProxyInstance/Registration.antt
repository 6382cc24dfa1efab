-- ===== src/ProxyInstance/Registration.antt =====
-- mcproxy/src/proxy/proxy_instance.cpp: all messages of the configuration.
use mathlib.Core.Option
use mcproxy.Base.{
  ◌≡◌, refl, ◌∙◌, inl, inr, Bool, false, not, ◌&&◌, Option, none, some, arith, Bool-cases, is_some,
}
use mcproxy.Interface.{
  RbType, RbInterfaceType, RbInterfaceDirection, RuleBinding, rbt_filter, rbt_rule_matching,
  rbt_timer_value, it_upstream, it_downstream, id_in, id_out, id_wildcard,
}
use mcproxy.Querier.Start.{new_querier}
use mcproxy.ProxyInstance.{
  has_downstream, new_world, handle_add_downstream, set_rule, set_global_rule, handle_config,
  ProxyInstance, ConfigMsg, Surroundings, add_downstream, del_downstream, add_upstream,
  del_upstream, set_global_rule_binding,
}
use mcproxy.ProxyInstance.Registered.{IsRegistered}

set_rule-IsRegistered :
    (t : RbType) (i : RbInterfaceType) (d : RbInterfaceDirection) (rb : RuleBinding)
    (p : ProxyInstance)
    → IsRegistered p
    → IsRegistered (set_rule t i d rb p)
unfolding set_rule
set_rule-IsRegistered rbt_rule_matching it_upstream id_in rb p h = record {
  listed = h.listed;
  routed = h.routed;
  sorted = h.sorted;
  distinct = h.distinct;
  indexed = h.indexed;
}
set_rule-IsRegistered rbt_rule_matching it_upstream id_out rb p h = record {
  listed = h.listed;
  routed = h.routed;
  sorted = h.sorted;
  distinct = h.distinct;
  indexed = h.indexed;
}
set_rule-IsRegistered rbt_rule_matching it_upstream id_wildcard rb p h = h
set_rule-IsRegistered rbt_rule_matching it_downstream d rb p h = h
set_rule-IsRegistered rbt_filter i d rb p h = h
set_rule-IsRegistered rbt_timer_value i d rb p h = h

pub set_global_rule-IsRegistered :
    (o : Option RuleBinding) (p : ProxyInstance)
    → IsRegistered p
    → IsRegistered (set_global_rule o p)
unfolding set_global_rule
set_global_rule-IsRegistered none p h = h
set_global_rule-IsRegistered (some rb) p h =
    set_rule-IsRegistered rb.rule_binding_type rb.interface_type rb.filter_direction rb p h

-- The constructor of the querier for a new downstream interface throws.
abbrev pub throws : Surroundings → ConfigMsg → ProxyInstance → Bool
throws e (add_downstream r tv) p =
    not (has_downstream r.index p)
    && not (is_some (new_querier e.joins (new_world e r.index tv) p.group_mem_protocol))
throws e _ p = false

map-is_some : {A B : Type 0} (f : A → B) (o : Option A) → is_some (Option.map f o) ≡ is_some o
map-is_some f none = refl
map-is_some f (some a) = refl

-- A message of the configuration has a result, unless the constructor of a querier throws.
pub handle_config-throws :
    (e : Surroundings) (msg : ConfigMsg) (p : ProxyInstance)
    → is_some (handle_config e msg p) ≡ not (throws e msg p)
unfolding handle_config handle_add_downstream
handle_config-throws e (add_downstream r tv) p =
    let o = new_querier e.joins (new_world e r.index tv) p.group_mem_protocol in
    elim (Bool-cases (has_downstream r.index p)) [
      | inl d ↦ rw d refl
      | inr d ↦ rw d (map-is_some _ o ∙ ground arith)
    ]
handle_config-throws e (del_downstream i) p = refl
handle_config-throws e (add_upstream priority r) p = refl
handle_config-throws e (del_upstream i) p = refl
handle_config-throws e (set_global_rule_binding rb) p = refl
