-- ===== src/ProxyStart/Steps.antt =====
-- mcproxy/src/proxy/proxy_instance.cpp: what one message of the configuration changes.
use mathlib.Core.Option
use mcproxy.Base.{
  ℕ, ◌≡◌, refl, inl, inr, Bool, true, false, ◌||◌, Option, none, some, List, [], ◌∷◌, arith, ◌==◌,
  if◌then◌else◌, Bool-cases, is_some, if-holds,
}
use mcproxy.SourceList.{insert, find?, contains}
use mcproxy.MapOf.{put, lookup-put}
use mcproxy.Protocol.{
  is_ipv4, is_ipv6, McFilter, GroupMemProtocol, exclude_mode, igmpv1, igmpv2, igmpv3, mldv1, mldv2,
}
use mcproxy.TimersValues.{TimersValues}
use mcproxy.Membership.{new_membership_db}
use mcproxy.World.{emit, World, send_record}
use mcproxy.Querier.Records.{Querier}
use mcproxy.Querier.ExcludeTable.{fresh}
use mcproxy.Interface.{
  RbType, RbInterfaceType, RbInterfaceDirection, RuleBinding, rbt_filter, rbt_rule_matching,
  rbt_timer_value, it_upstream, it_downstream, id_in, id_out, id_wildcard,
}
use mcproxy.Forwarding.{RouteInterface}
use mcproxy.Buffer.{Holds}
use mcproxy.Querier.Start.{router_groups, send_records, router_groups_function, new_querier}
use mcproxy.ProxyInstance.{
  priority_of, has_upstream, has_downstream, register, new_world, handle_add_downstream,
  handle_add_upstream, set_rule, set_global_rule, UpstreamInfo, ProxyInstance, Surroundings,
}
use mcproxy.ProxyInstance.Upstreams.{has_upstream-insert}
use mcproxy.ProxyInstance.Registered.{holds_at}

-- There is a result, and it has `P`.
unfoldable pub Succeeds : (ProxyInstance → Type 0) → Option ProxyInstance → Type 0
Succeeds P none = ⊥
Succeeds P (some p) = P p

pub send_records-sent :
    (joins : ℕ → Bool) (mf : McFilter) (l : List ℕ) (w : World)
    → ((g : ℕ) → joins g ≡ true)
    → (send_records joins mf l w).0 ≡ true
unfolding send_records
send_records-sent joins mf [] w h = refl
send_records-sent joins mf (g ∷ l) w h =
    ground (arith, h g, send_records-sent joins mf l (emit w (send_record mf g)) h)

pub family_known : (gmp : GroupMemProtocol) → (is_ipv4 gmp || is_ipv6 gmp) ≡ true
unfolding is_ipv4 is_ipv6
family_known igmpv1 = refl
family_known igmpv2 = refl
family_known igmpv3 = refl
family_known mldv1 = refl
family_known mldv2 = refl

-- Where the sender takes the records of all groups, a querier is made.
pub new_querier-made :
    (joins : ℕ → Bool) (w : World) (gmp : GroupMemProtocol)
    → ((g : ℕ) → joins g ≡ true)
    → is_some (new_querier joins w gmp) ≡ true
unfolding new_querier router_groups_function new_membership_db
new_querier-made joins w gmp h =
    rw (family_known gmp) (rw (send_records-sent joins exclude_mode (router_groups gmp) w h) refl)

pub contains-insert_ne :
    (k : ℕ) (u : UpstreamInfo) (l : List UpstreamInfo)
    → (u.priority == k) ≡ false
    → contains priority_of k (insert priority_of u l) ≡ contains priority_of k l
unfolding contains find? insert
contains-insert_ne k u [] h = ground arith
contains-insert_ne k u (v ∷ l) h = ground (arith, contains-insert_ne k u l h)

pub Succeeds-map :
    (P Q : ProxyInstance → Type 0) (o : Option ProxyInstance)
    → ((p : ProxyInstance) → P p → Q p)
    → Succeeds P o
    → Succeeds Q o
unfolding Succeeds
Succeeds-map P Q none f h = h
Succeeds-map P Q (some p) f h = f p h

pub Succeeds-and :
    (P Q : ProxyInstance → Type 0) (o : Option ProxyInstance)
    → Succeeds P o
    → Holds Q o
    → Succeeds (λ p. P p × Q p) o
unfolding Succeeds
Succeeds-and P Q none h k = h
Succeeds-and P Q (some p) h k = (h, k)

pub Succeeds-then :
    (P Q : ProxyInstance → Type 0) (o : Option ProxyInstance)
    (f : ProxyInstance → Option ProxyInstance)
    → Succeeds P o
    → ((p : ProxyInstance) → P p → Succeeds Q (f p))
    → Succeeds Q (elim o as (λ _. Option ProxyInstance) [ none ↦ none | some p ↦ f p ])
unfolding Succeeds
Succeeds-then P Q none f h k = h
Succeeds-then P Q (some p) f h k = k p h

pub add_upstream-has_upstream :
    (priority i : ℕ) (r : RouteInterface) (p : ProxyInstance)
    → contains priority_of priority p.upstreams ≡ false
    → has_upstream i (handle_add_upstream priority r p).upstreams
      ≡ (has_upstream i p.upstreams || (r.index == i))
unfolding handle_add_upstream register
add_upstream-has_upstream priority i r p fresh =
    let u : UpstreamInfo = record { priority = priority; interface = r } in
    ground (
      arith,
      has_upstream-insert i u p.upstreams fresh,
      holds_at (λ k. has_upstream k p.upstreams) r.index i,
    )

pub add_upstream-has_downstream :
    (priority i : ℕ) (r : RouteInterface) (p : ProxyInstance)
    → has_downstream i (handle_add_upstream priority r p) ≡ has_downstream i p
unfolding handle_add_upstream register
add_upstream-has_downstream priority i r p = ground arith

pub add_upstream-free :
    (priority k : ℕ) (r : RouteInterface) (p : ProxyInstance)
    → (priority == k) ≡ false
    → contains priority_of k p.upstreams ≡ false
    → contains priority_of k (handle_add_upstream priority r p).upstreams ≡ false
unfolding handle_add_upstream register
add_upstream-free priority k r p ne h =
    let u : UpstreamInfo = record { priority = priority; interface = r } in
    ground (arith, contains-insert_ne k u p.upstreams ne)

-- What a message that adds a downstream interface leaves as it was, and that the interface is there.
pub record Added (r : RouteInterface) (p p' : ProxyInstance) : Type 0 where
  pub same_upstreams : p'.upstreams ≡ p.upstreams
  pub there : (i : ℕ) → has_downstream i p' ≡ (has_downstream i p || (r.index == i))

pub handle_add_downstream-Added :
    (e : Surroundings) (r : RouteInterface) (tv : TimersValues) (p : ProxyInstance)
    → ((g : ℕ) → e.joins g ≡ true)
    → Succeeds (Added r p) (handle_add_downstream e r tv p)
unfolding handle_add_downstream register Succeeds
handle_add_downstream-Added e r tv p h = elim (Bool-cases (has_downstream r.index p)) [
  | inl d ↦ rw d (record {
    same_upstreams = refl;
    there = λ i. ground (arith, holds_at (λ k. has_downstream k p) r.index i d);
  })
  | inr d ↦ rw d (
      go (new_querier e.joins w p.group_mem_protocol)
        (new_querier-made e.joins w p.group_mem_protocol h))
]
  where
    w : World
    w = new_world e r.index tv

    p1 : ProxyInstance
    p1 = if has_upstream r.index p.upstreams then p else register r.index p

    go :
        (o : Option Querier)
        → is_some o ≡ true
        → Succeeds
            (Added r p)
            (Option.map (λ q. record p1 { downstreams = put r.index (r, q) p.downstreams }) o)
    go none ho = absurd (ground arith)
    go (some q) ho = record {
      same_upstreams =
          if-holds (λ (p2 : ProxyInstance). p2.upstreams ≡ p.upstreams)
            (has_upstream r.index p.upstreams) p (register r.index p) refl refl;
      there = λ i. ground (arith, lookup-put i r.index (r, q) p.downstreams);
    }

-- What a rule leaves as it was.
pub record SameInterfaces (p p' : ProxyInstance) : Type 0 where
  pub ups : p'.upstreams ≡ p.upstreams
  pub downs : p'.downstreams ≡ p.downstreams

pub set_rule-SameInterfaces :
    (t : RbType) (i : RbInterfaceType) (d : RbInterfaceDirection) (rb : RuleBinding)
    (p : ProxyInstance)
    → SameInterfaces p (set_rule t i d rb p)
unfolding set_rule
set_rule-SameInterfaces rbt_rule_matching it_upstream id_in rb p = record {
  ups = refl;
  downs = refl;
}
set_rule-SameInterfaces rbt_rule_matching it_upstream id_out rb p = record {
  ups = refl;
  downs = refl;
}
set_rule-SameInterfaces rbt_rule_matching it_upstream id_wildcard rb p = record {
  ups = refl;
  downs = refl;
}
set_rule-SameInterfaces rbt_rule_matching it_downstream d rb p = record { ups = refl; downs = refl }
set_rule-SameInterfaces rbt_filter i d rb p = record { ups = refl; downs = refl }
set_rule-SameInterfaces rbt_timer_value i d rb p = record { ups = refl; downs = refl }

pub set_global_rule-SameInterfaces :
    (o : Option RuleBinding) (p : ProxyInstance) → SameInterfaces p (set_global_rule o p)
unfolding set_global_rule
set_global_rule-SameInterfaces none p = record { ups = refl; downs = refl }
set_global_rule-SameInterfaces (some rb) p =
    set_rule-SameInterfaces rb.rule_binding_type rb.interface_type rb.filter_direction rb p
