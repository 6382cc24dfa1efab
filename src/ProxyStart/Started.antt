-- ===== src/ProxyStart/Started.antt =====
-- mcproxy/src/proxy/proxy_instance.cpp: what an instance is after messages that only set it up, in
-- whatever order the queue of the worker gives them.
use mcproxy.Base.{ℕ, suc, ◌≡◌, ap, ◌∙◌, true, false, not, ◌||◌, List, [], ◌∷◌, arith, ◌==◌, is_some}
use mcproxy.SourceList.{contains}
use mcproxy.MapOf.{lookup}
use mcproxy.ProxyInstance.{
  priority_of, has_upstream, handle_add_downstream, handle_add_upstream, set_global_rule,
  handle_config, ProxyInstance, ConfigMsg, Surroundings, add_downstream, del_downstream,
  add_upstream, del_upstream, set_global_rule_binding,
}
use mcproxy.ProxyInstance.Registered.{holds_at, IsRegistered}
use mcproxy.ProxyInstance.UpstreamMsgs.{handle_add_upstream-IsRegistered}
use mcproxy.ProxyInstance.DownstreamMsgs.{handle_add_downstream-IsRegistered}
use mcproxy.ProxyInstance.Registration.{set_global_rule-IsRegistered}
use mcproxy.ProxyStart.{run_configs}
use mcproxy.ProxyStart.Setup.{uses_priority, adds_upstream, adds_downstream, IsSetup, Configured}
use mcproxy.ProxyStart.Steps.{
  Succeeds, Succeeds-map, Succeeds-and, Succeeds-then, add_upstream-has_upstream,
  add_upstream-has_downstream, add_upstream-free, handle_add_downstream-Added,
  set_global_rule-SameInterfaces, Added,
}

-- The priorities that the messages use are free.
abbrev AreFree : List ConfigMsg → ProxyInstance → Type 0
AreFree msgs p = (k : ℕ) → uses_priority k msgs ≡ true → contains priority_of k p.upstreams ≡ false

other_priority :
    (k j : ℕ) (l : List ConfigMsg)
    → uses_priority k l ≡ false
    → uses_priority j l ≡ true
    → (k == j) ≡ false
other_priority k j l hk hj = ground (arith, holds_at (λ x. not (uses_priority x l)) k j)

module _ (e : ℕ → Surroundings) (joined : (n g : ℕ) → (e n).joins g ≡ true) where
  pub run_configs-Configured :
      (n : ℕ) (msgs : List ConfigMsg) (p : ProxyInstance)
      → IsSetup msgs
      → AreFree msgs p
      → IsRegistered p
      → Succeeds (Configured msgs p) (run_configs e n msgs p)
  unfolding run_configs handle_config IsSetup Succeeds
  run_configs-Configured n [] p hs hf h = record {
    registered = h;
    upstreams_are = λ i. ground arith;
    downstreams_are = λ i. ground arith;
  }
  run_configs-Configured n (add_upstream k r ∷ l) p hs hf h =
      let fresh = hf k (ground arith) in
      let p1 = handle_add_upstream k r p in
      let free : AreFree l p1 =
        λ j hj. add_upstream-free k j r p (other_priority k j l hs.0 hj) (hf j (ground arith)) in
      Succeeds-map (Configured l p1) (Configured (add_upstream k r ∷ l) p)
        (run_configs e (suc n) l p1)
        (λ p' c. record {
          registered = c.registered;
          upstreams_are =
              λ i. ground (arith, c.upstreams_are i, add_upstream-has_upstream k i r p fresh);
          downstreams_are =
              λ i. ground (arith, c.downstreams_are i, add_upstream-has_downstream k i r p);
        })
        (run_configs-Configured (suc n) l p1 hs.1 free
          (handle_add_upstream-IsRegistered k r p fresh h))
  run_configs-Configured n (add_downstream r tv ∷ l) p hs hf h =
      let o = handle_add_downstream (e n) r tv p in
      Succeeds-then (λ p1. Added r p p1 × IsRegistered p1) (Configured (add_downstream r tv ∷ l) p)
        o (λ p1. run_configs e (suc n) l p1)
        (Succeeds-and (Added r p) IsRegistered o
          (handle_add_downstream-Added (e n) r tv p (joined n))
          (handle_add_downstream-IsRegistered (e n) r tv p h))
        λ p1 (a, h1).
          Succeeds-map (Configured l p1) (Configured (add_downstream r tv ∷ l) p)
            (run_configs e (suc n) l p1)
            (λ p' c. record {
              registered = c.registered;
              upstreams_are = λ i.
                  c.upstreams_are i
                  ∙ ap (λ ups. has_upstream i ups || adds_upstream i l) a.same_upstreams;
              downstreams_are = λ i. ground (arith, c.downstreams_are i, a.there i);
            })
            (run_configs-Configured (suc n) l p1 hs
              (λ j hj. ap (contains priority_of j) a.same_upstreams ∙ hf j hj) h1)
  run_configs-Configured n (set_global_rule_binding rb ∷ l) p hs hf h =
      let p1 = set_global_rule rb p in
      let same = set_global_rule-SameInterfaces rb p in
      Succeeds-map (Configured l p1) (Configured (set_global_rule_binding rb ∷ l) p)
        (run_configs e (suc n) l p1)
        (λ p' c. record {
          registered = c.registered;
          upstreams_are =
              λ i. c.upstreams_are i ∙ ap (λ ups. has_upstream i ups || adds_upstream i l) same.ups;
          downstreams_are = λ i.
              c.downstreams_are i
              ∙ ap (λ downs. is_some (lookup i downs) || adds_downstream i l) same.downs;
        })
        (run_configs-Configured (suc n) l p1 hs
          (λ j hj. ap (contains priority_of j) same.ups ∙ hf j hj)
          (set_global_rule-IsRegistered rb p h))
  run_configs-Configured n (del_downstream i ∷ l) p hs hf h = absurd hs
  run_configs-Configured n (del_upstream i ∷ l) p hs hf h = absurd hs
