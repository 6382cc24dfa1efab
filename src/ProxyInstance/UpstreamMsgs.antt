-- ===== src/ProxyInstance/UpstreamMsgs.antt =====
-- mcproxy/src/proxy/proxy_instance.cpp: upstream interfaces that come and go.
use mcproxy.Base.{ℕ, ◌≡◌, inl, inr, false, not, arith, Bool-cases}
use mcproxy.SourceList.{contains}
use mcproxy.Querier.ExcludeTable.{fresh}
use mcproxy.Forwarding.{RouteInterface}
use mcproxy.ProxyInstance.{
  priority_of, has_upstream, has_downstream, register, unregister, handle_add_upstream,
  handle_del_upstream, UpstreamInfo, ProxyInstance,
}
use mcproxy.ProxyInstance.Upstreams.{
  has_upstream-insert, insert-Distinct, has_upstream-erase_upstream, erase_upstream-Distinct,
}
use mcproxy.ProxyInstance.Registered.{
  holds_at, register-IsSorted, unregister-IsSorted, register-relevant, unregister-relevant,
  register-routed, unregister-routed, IsRegistered,
}

pub handle_add_upstream-IsRegistered :
    (priority : ℕ) (r : RouteInterface) (p : ProxyInstance)
    → contains priority_of priority p.upstreams ≡ false
    → IsRegistered p
    → IsRegistered (handle_add_upstream priority r p)
unfolding handle_add_upstream register
handle_add_upstream-IsRegistered priority r p fresh h =
    elim (Bool-cases (has_upstream r.index p.upstreams)) [
      | inl e ↦ rw e h
      | inr e ↦ elim (Bool-cases (has_downstream r.index p)) [
        | inl d ↦ rw e (
            rw d (record {
              listed = λ j. ground (
                arith,
                h.listed j,
                has_upstream-insert j u p.upstreams fresh,
                holds_at (λ k. has_downstream k p) r.index j d,
              );
              routed = h.routed;
              sorted = h.sorted;
              distinct = insert-Distinct u p.upstreams e fresh h.distinct;
              indexed = h.indexed;
            }))
        | inr d ↦ rw e (
            rw d (record {
              listed = λ j. ground (
                arith,
                h.listed j,
                has_upstream-insert j u p.upstreams fresh,
                register-relevant j r.index p h.sorted,
              );
              routed = λ j. register-routed j r.index p h.sorted (h.routed j);
              sorted = register-IsSorted r.index p h.sorted;
              distinct = insert-Distinct u p.upstreams e fresh h.distinct;
              indexed = h.indexed;
            }))
      ]
    ]
  where
    u : UpstreamInfo
    u = record { priority = priority; interface = r }

pub handle_del_upstream-IsRegistered :
    (i : ℕ) (p : ProxyInstance) → IsRegistered p → IsRegistered (handle_del_upstream i p)
unfolding handle_del_upstream unregister
handle_del_upstream-IsRegistered i p h = elim (Bool-cases (has_upstream i p.upstreams)) [
  | inr e ↦ rw e h
  | inl e ↦ elim (Bool-cases (has_downstream i p)) [
    | inl d ↦ rw e (
        rw d (record {
          listed = λ j. ground (
            arith,
            h.listed j,
            has_upstream-erase_upstream j i p.upstreams h.distinct,
            holds_at (λ k. has_downstream k p) i j d,
          );
          routed = h.routed;
          sorted = h.sorted;
          distinct = erase_upstream-Distinct i p.upstreams h.distinct;
          indexed = h.indexed;
        }))
    | inr d ↦ rw e (
        rw d (record {
          listed = λ j. ground (
            arith,
            d,
            h.listed j,
            has_upstream-erase_upstream j i p.upstreams h.distinct,
            unregister-relevant j i p,
            holds_at (λ k. not (has_downstream k p)) i j,
          );
          routed = λ j. unregister-routed j i p (h.routed j);
          sorted = unregister-IsSorted i p h.sorted;
          distinct = erase_upstream-Distinct i p.upstreams h.distinct;
          indexed = h.indexed;
        }))
  ]
]
