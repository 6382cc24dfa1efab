-- ===== src/Worker/Configs.antt =====
-- mcproxy/src/proxy/proxy_instance.cpp: the databases of the queriers after a message of the
-- configuration.
use mathlib.Core.Option
use mcproxy.Base.{
  ℕ, ◌≡◌, refl, sym, subst, Bool, true, Option, none, some, ◌∷◌, arith, if◌then◌else◌, if-holds,
  All,
}
use mcproxy.MapOf.{lookup, put, remove}
use mcproxy.Protocol.{GroupMemProtocol}
use mcproxy.TimersValues.{TimersValues}
use mcproxy.Membership.{new_membership_db}
use mcproxy.World.{World}
use mcproxy.Querier.Records.{Querier}
use mcproxy.Querier.Expiry.{send_general_query}
use mcproxy.Querier.Outcomes.{IsValidDb}
use mcproxy.Interface.{
  RbType, RbInterfaceType, RbInterfaceDirection, RuleBinding, rbt_filter, rbt_rule_matching,
  rbt_timer_value, it_upstream, it_downstream, id_in, id_out, id_wildcard,
}
use mcproxy.Forwarding.{RouteInterface}
use mcproxy.Buffer.{Holds}
use mcproxy.Querier.Start.{router_groups_function, new_querier, end_querier}
use mcproxy.ProxyInstance.{
  has_upstream, has_downstream, register, unregister, new_world, handle_add_downstream,
  handle_del_downstream, handle_add_upstream, handle_del_upstream, set_rule, set_global_rule,
  handle_config, ProxyInstance, ConfigMsg, Surroundings, add_downstream, del_downstream,
  add_upstream, del_upstream, set_global_rule_binding,
}
use mcproxy.ProxyInstance.Registered.{All-put, All-remove}

-- Every querier of the instance has a database of valid entries.
abbrev pub HasValidQueriers : ProxyInstance → Type 0
HasValidQueriers p = All (λ d. IsValidDb (d.1.1.db)) p.downstreams

new_querier-IsValidDb :
    (joins : ℕ → Bool) (w : World) (gmp : GroupMemProtocol)
    → Holds (λ q. IsValidDb (q.db)) (new_querier joins w gmp)
unfolding new_querier send_general_query new_membership_db lookup
new_querier-IsValidDb joins w gmp =
    let q : Querier = record { world = w; db = new_membership_db gmp } in
    let sent = router_groups_function joins true q in
    if-holds (Holds (λ (k : Querier). IsValidDb (k.db))) sent.0
      (some (send_general_query (record q { world = sent.1 }))) none
      (λ k g e. absurd (ground (arith, e))) tt

set_rule-downstreams :
    (t : RbType) (i : RbInterfaceType) (d : RbInterfaceDirection) (rb : RuleBinding)
    (p : ProxyInstance)
    → (set_rule t i d rb p).downstreams ≡ p.downstreams
unfolding set_rule
set_rule-downstreams rbt_rule_matching it_upstream id_in rb p = refl
set_rule-downstreams rbt_rule_matching it_upstream id_out rb p = refl
set_rule-downstreams rbt_rule_matching it_upstream id_wildcard rb p = refl
set_rule-downstreams rbt_rule_matching it_downstream d rb p = refl
set_rule-downstreams rbt_filter i d rb p = refl
set_rule-downstreams rbt_timer_value i d rb p = refl

add_downstream-HasValidQueriers :
    (e : Surroundings) (r : RouteInterface) (tv : TimersValues) (p : ProxyInstance)
    → HasValidQueriers p
    → Holds HasValidQueriers (handle_add_downstream e r tv p)
unfolding handle_add_downstream
add_downstream-HasValidQueriers e r tv p h =
    if-holds (Holds HasValidQueriers) (has_downstream r.index p) (some p) _ h (
      go (new_querier e.joins w p.group_mem_protocol)
        (new_querier-IsValidDb e.joins w p.group_mem_protocol))
  where
    w : World
    w = new_world e r.index tv

    p1 : ProxyInstance
    p1 = if has_upstream r.index p.upstreams then p else register r.index p

    go :
        (o : Option Querier)
        → Holds (λ q. IsValidDb (q.db)) o
        → Holds HasValidQueriers
            (Option.map (λ q. record p1 { downstreams = put r.index (r, q) p.downstreams }) o)
    go none v = tt
    go (some q) v = All-put (λ k. IsValidDb (k.1.1.db)) r.index (r, q) p.downstreams v h

del_downstream-HasValidQueriers :
    (e : Surroundings) (i : ℕ) (p : ProxyInstance)
    → HasValidQueriers p
    → HasValidQueriers (handle_del_downstream e i p)
unfolding handle_del_downstream
del_downstream-HasValidQueriers e i p h = go (lookup i p.downstreams)
  where
    p1 : ProxyInstance
    p1 = if has_upstream i p.upstreams then p else unregister i p

    go :
        (o : Option (RouteInterface × Querier))
        → HasValidQueriers (elim o as (λ _. ProxyInstance) [
          | none ↦ p
          | some d ↦ record p1 {
            downstreams = remove i p.downstreams;
            ended = end_querier e.joins d.1 ∷ p.ended;
          }
        ])
    go none = h
    go (some d) = All-remove (λ k. IsValidDb (k.1.1.db)) i p.downstreams h

-- Each message of the configuration leaves the databases of all queriers valid.
pub handle_config-HasValidQueriers :
    (e : Surroundings) (c : ConfigMsg) (p : ProxyInstance)
    → HasValidQueriers p
    → Holds HasValidQueriers (handle_config e c p)
unfolding handle_config handle_add_upstream handle_del_upstream set_global_rule register unregister
handle_config-HasValidQueriers e (add_downstream r tv) p h =
    add_downstream-HasValidQueriers e r tv p h
handle_config-HasValidQueriers e (del_downstream i) p h = del_downstream-HasValidQueriers e i p h
handle_config-HasValidQueriers e (add_upstream priority r) p h =
    if-holds HasValidQueriers (has_upstream r.index p.upstreams) p _ h
      (if-holds HasValidQueriers (has_downstream r.index p) p (register r.index p) h h)
handle_config-HasValidQueriers e (del_upstream i) p h =
    if-holds HasValidQueriers (has_upstream i p.upstreams) _ p
      (if-holds HasValidQueriers (has_downstream i p) p (unregister i p) h h) h
handle_config-HasValidQueriers e (set_global_rule_binding none) p h = h
handle_config-HasValidQueriers e (set_global_rule_binding (some rb)) p h =
    subst (All (λ d. IsValidDb (d.1.1.db)))
      (sym (set_rule-downstreams rb.rule_binding_type rb.interface_type rb.filter_direction rb p)) h
