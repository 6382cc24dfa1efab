-- ===== src/ProxyInstance/DownstreamMsgs.antt =====
-- mcproxy/src/proxy/proxy_instance.cpp: downstream interfaces that come and go.
use mathlib.Core.Option
use mcproxy.Base.{
  ℕ, ◌≡◌, refl, inl, inr, true, not, ◌&&◌, ◌||◌, Option, none, some, ◌∷◌, arith, ◌==◌,
  if◌then◌else◌, Bool-cases, if-holds,
}
use mcproxy.SourceList.{IsSorted}
use mcproxy.MapOf.{lookup, put, remove, lookup-put, lookup-remove}
use mcproxy.TimersValues.{TimersValues}
use mcproxy.World.{World}
use mcproxy.Querier.Records.{Querier}
use mcproxy.Forwarding.{RouteInterface}
use mcproxy.Buffer.{Holds}
use mcproxy.Receiver.{is_if_index_relevant}
use mcproxy.Querier.Start.{new_querier, end_querier, new_querier-if_index}
use mcproxy.ProxyInstance.{
  has_upstream, has_downstream, register, unregister, new_world, handle_add_downstream,
  handle_del_downstream, ProxyInstance, Surroundings,
}
use mcproxy.ProxyInstance.Upstreams.{Distinct}
use mcproxy.ProxyInstance.Registered.{
  is_routed, All-put, All-remove, holds_at, register-IsSorted, unregister-IsSorted,
  register-relevant, unregister-relevant, register-routed, unregister-routed, IsRegistered,
}

pub handle_add_downstream-IsRegistered :
    (e : Surroundings) (r : RouteInterface) (tv : TimersValues) (p : ProxyInstance)
    → IsRegistered p
    → Holds IsRegistered (handle_add_downstream e r tv p)
unfolding handle_add_downstream register
handle_add_downstream-IsRegistered e r tv p h = elim (Bool-cases (has_downstream r.index p)) [
  | inl d ↦ rw d h
  | inr d ↦ rw d (
      go (new_querier e.joins w p.group_mem_protocol)
        (new_querier-if_index e.joins w p.group_mem_protocol))
]
  where
    w : World
    w = new_world e r.index tv

    p1 : ProxyInstance
    p1 = if has_upstream r.index p.upstreams then p else register r.index p

    added : Querier → ProxyInstance
    added q = record p1 { downstreams = put r.index (r, q) p.downstreams }

    relevant :
        (j : ℕ)
        → is_if_index_relevant p1.receiver j
          ≡ ((r.index == j) || (has_upstream j p.upstreams || has_downstream j p))
    relevant j = ground (
      arith,
      h.listed j,
      register-relevant j r.index p h.sorted,
      holds_at (λ k. has_upstream k p.upstreams) r.index j,
    )

    go :
        (o : Option Querier)
        → Holds (λ q. q.world.if_index ≡ r.index) o
        → Holds IsRegistered (Option.map added o)
    go none hq = tt
    go (some q) hq = record {
      listed = λ j. ground (arith, relevant j, lookup-put j r.index (r, q) p.downstreams);
      routed = λ j.
          if-holds
            (λ (p2 : ProxyInstance). is_routed j p2.calls ≡ is_if_index_relevant p2.receiver j)
            (has_upstream r.index p.upstreams) p (register r.index p) (h.routed j)
            (register-routed j r.index p h.sorted (h.routed j));
      sorted =
          if-holds (λ (p2 : ProxyInstance). IsSorted (λ k. k) p2.receiver.relevant_if_index)
            (has_upstream r.index p.upstreams) p _ h.sorted (register-IsSorted r.index p h.sorted);
      distinct =
          if-holds (λ (p2 : ProxyInstance). Distinct p2.upstreams)
            (has_upstream r.index p.upstreams) p (register r.index p) h.distinct h.distinct;
      indexed = All-put _ r.index (r, q) p.downstreams (refl, hq) h.indexed;
    }

pub handle_del_downstream-IsRegistered :
    (e : Surroundings) (i : ℕ) (p : ProxyInstance)
    → IsRegistered p
    → IsRegistered (handle_del_downstream e i p)
unfolding handle_del_downstream unregister
handle_del_downstream-IsRegistered e i p h = go (lookup i p.downstreams) refl
  where
    p1 : ProxyInstance
    p1 = if has_upstream i p.upstreams then p else unregister i p

    relevant :
        (j : ℕ)
        → has_downstream i p ≡ true
        → is_if_index_relevant p1.receiver j
          ≡ (has_upstream j p.upstreams || (has_downstream j p && not (i == j)))
    relevant j d = ground (
      arith,
      h.listed j,
      unregister-relevant j i p,
      holds_at (λ k. has_upstream k p.upstreams) i j,
      holds_at (λ k. not (has_upstream k p.upstreams)) i j,
    )

    go :
        (o : Option (RouteInterface × Querier))
        → lookup i p.downstreams ≡ o
        → IsRegistered (elim o as (λ _. ProxyInstance) [
          | none ↦ p
          | some d ↦ record p1 {
            downstreams = remove i p.downstreams;
            ended = end_querier e.joins d.1 ∷ p.ended;
          }
        ])
    go none eo = h
    go (some d) eo = record {
      listed = λ j. ground (arith, relevant j (rw eo refl), lookup-remove j i p.downstreams);
      routed = λ j.
          if-holds
            (λ (p2 : ProxyInstance). is_routed j p2.calls ≡ is_if_index_relevant p2.receiver j)
            (has_upstream i p.upstreams) p (unregister i p) (h.routed j)
            (unregister-routed j i p (h.routed j));
      sorted =
          if-holds (λ (p2 : ProxyInstance). IsSorted (λ k. k) p2.receiver.relevant_if_index)
            (has_upstream i p.upstreams) p (unregister i p) h.sorted
            (unregister-IsSorted i p h.sorted);
      distinct =
          if-holds (λ (p2 : ProxyInstance). Distinct p2.upstreams) (has_upstream i p.upstreams) p
            (unregister i p) h.distinct h.distinct;
      indexed = All-remove _ i p.downstreams h.indexed;
    }
