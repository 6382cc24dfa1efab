-- ===== src/ProxyInstance/Forwarded.antt =====
-- mcproxy/src/proxy/proxy_instance.cpp: what the routing sees of an instance.
use mcproxy.Base.{
  ℕ, ◌≡◌, refl, sym, ◌∙◌, Bool, false, some, List, [], ◌∷◌, map, arith, is_some, All,
}
use mcproxy.MapOf.{lookup}
use mcproxy.Message.{Source}
use mcproxy.Querier.Records.{Querier}
use mcproxy.RoutingData.{RoutingTable, get_interface_map}
use mcproxy.Forwarding.{
  find_downstream, is_downstream, collect_interested_interfaces, RouteInterface, Instance,
}
use mcproxy.Forwarding.Loops.{NoLoop, collect_interested_interfaces-NoLoop, IsSplit}
use mcproxy.ProxyInstance.{has_downstream, UpstreamInfo, ProxyInstance}
use mcproxy.ProxyInstance.Registered.{IsRegistered}

abbrev interface_of : UpstreamInfo → RouteInterface
interface_of u = u.interface

abbrev downstream_of : ℕ × (RouteInterface × Querier) → RouteInterface × Querier
downstream_of d = d.1

-- `has_name` says which interfaces have a name in the system.
unfoldable pub instance_of : (ℕ → Bool) → ProxyInstance → Instance
instance_of has_name p = record {
  upstreams = map interface_of p.upstreams;
  downstreams = map downstream_of p.downstreams;
  has_name = has_name;
  input_rule = some p.upstream_input_rule.rule_matching_type;
  output_rule = some p.upstream_output_rule.rule_matching_type;
}

find_downstream-lookup :
    (i : ℕ) (l : List (ℕ × (RouteInterface × Querier)))
    → All (λ d. (d.1.0.index ≡ d.0) × (d.1.1.world.if_index ≡ d.0)) l
    → is_some (find_downstream i (map downstream_of l)) ≡ is_some (lookup i l)
unfolding find_downstream lookup
find_downstream-lookup i [] h = refl
find_downstream-lookup i ((j, (r, q)) ∷ l) h = ground (arith, h.0.0, find_downstream-lookup i l h.1)

indexes-known :
    (l : List (ℕ × (RouteInterface × Querier)))
    → All (λ d. (d.1.0.index ≡ d.0) × (d.1.1.world.if_index ≡ d.0)) l
    → All (λ d. d.1.world.if_index ≡ d.0.index) (map downstream_of l)
indexes-known [] h = tt
indexes-known ((j, (r, q)) ∷ l) h = (h.0.1 ∙ sym h.0.0, indexes-known l h.1)

upstreams-apart :
    (p : ProxyInstance) (q : Instance) (l : List UpstreamInfo)
    → ((i : ℕ) → is_downstream q i ≡ has_downstream i p)
    → All (λ u. has_downstream u.interface.index p ≡ false) l
    → All (λ u. is_downstream q u.index ≡ false) (map interface_of l)
upstreams-apart p q [] same h = tt
upstreams-apart p q (u ∷ l) same h = (same u.interface.index ∙ h.0, upstreams-apart p q l same h.1)

instance_of-IsSplit :
    (has_name : ℕ → Bool) (p : ProxyInstance)
    → IsRegistered p
    → All (λ u. has_downstream u.interface.index p ≡ false) p.upstreams
    → IsSplit (instance_of has_name p)
unfolding instance_of
instance_of-IsSplit has_name p h apart = record {
  apart =
      upstreams-apart p (instance_of has_name p) p.upstreams
        (λ i. find_downstream-lookup i p.downstreams h.indexed) apart;
  indexes = indexes-known p.downstreams h.indexed;
}

-- In an instance whose interfaces are registered as its messages leave it, and where no upstream interface
-- is a downstream interface too, no source is forwarded to the interface on which it is heard.
pub registered-NoLoop :
    (has_name : ℕ → Bool) (p : ProxyInstance) (m : RoutingTable) (gaddr : ℕ) (slist : List Source)
    → IsRegistered p
    → All (λ u. has_downstream u.interface.index p ≡ false) p.upstreams
    → All
        (NoLoop (get_interface_map gaddr m))
        (collect_interested_interfaces (instance_of has_name p) m gaddr slist)
registered-NoLoop has_name p m gaddr slist h apart =
    collect_interested_interfaces-NoLoop (instance_of has_name p) m gaddr slist
      (instance_of-IsSplit has_name p h apart)
