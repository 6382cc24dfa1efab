-- ===== src/Forwarding/Loops.antt =====
-- mcproxy/src/proxy/simple_mc_proxy_routing.cpp: no source is forwarded to the interface on which it
-- is heard.
use mcproxy.Base.{
  ℕ, ◌≡◌, refl, ◌≢◌, inl, inr, Bool, true, false, ◌&&◌, ◌||◌, Option, none, some, List, [], ◌∷◌,
  ◌++◌, arith, ◌==◌, if◌then◌else◌, Bool-cases, if-holds, All,
}
use mcproxy.MapOf.{lookup}
use mcproxy.Message.{Source}
use mcproxy.Membership.{GaddrInfo}
use mcproxy.Querier.Records.{Querier}
use mcproxy.Querier.Forward.{wants_source, ForwardList, push_interface, suggest_to_forward_traffic}
use mcproxy.RoutingData.{RoutingTable, get_interface_map}
use mcproxy.Forwarding.{
  is_downstream, collect_upstreams, collect_sources, filter_fun, suggest_all,
  collect_interested_interfaces, RouteInterface, Instance,
}

abbrev pub has_if : ℕ → List ℕ → Bool
has_if i [] = false
has_if i (j ∷ l) = (j == i) || has_if i l

has_if-append :
    (i j : ℕ) (l : List ℕ) → has_if i l ≡ false → j ≢ i → has_if i (l ++ (j ∷ [])) ≡ false
has_if-append i j [] h ne = ground arith
has_if-append i j (k ∷ l) h ne = ground (arith, has_if-append i j l)

-- No source goes out on its input interface.
pub NoLoop : List (ℕ × ℕ) → Source × List ℕ → Type 0
NoLoop inputs (s, out) = (i : ℕ) → lookup s.saddr inputs ≡ some i → has_if i out ≡ false

-- The upstreams are no downstreams, and a querier knows the index of its interface.
pub record IsSplit (p : Instance) : Type 0 where
  pub apart : All (λ u. is_downstream p u.index ≡ false) p.upstreams
  pub indexes : All (λ d. d.1.world.if_index ≡ d.0.index) p.downstreams

collect_upstreams-has_if :
    (p : Instance) (i g s : ℕ) (ups : List RouteInterface)
    → is_downstream p i ≡ true
    → All (λ u. is_downstream p u.index ≡ false) ups
    → has_if i (collect_upstreams p i g s ups) ≡ false
unfolding collect_upstreams
collect_upstreams-has_if p i g s [] hi h = refl
collect_upstreams-has_if p i g s (u ∷ ups) hi (hu, h) =
    ground (arith, collect_upstreams-has_if p i g s ups hi h)

source-NoLoop :
    (p : Instance) (inputs : List (ℕ × ℕ)) (g : ℕ) (s : Source) (rest : ForwardList × Bool)
    → IsSplit p
    → All (NoLoop inputs) rest.0
    → (o : Option ℕ) → lookup s.saddr inputs ≡ o
    → All
        (NoLoop inputs)
        (elim o as (λ _. ForwardList × Bool) [
          | none ↦ ([], false)
          | some input ↦ (
            (
              s,
              if is_downstream p input then collect_upstreams p input g s.saddr p.upstreams else [],
            )
                ∷ rest.0,
            rest.1,
          )
        ]).0
unfolding NoLoop
source-NoLoop p inputs g s rest h hr none e = tt
source-NoLoop p inputs g s rest h hr (some input) e = (
  λ i ei. elim (Bool-cases (is_downstream p input)) [
    | inl d ↦ ground (arith, collect_upstreams-has_if p input g s.saddr p.upstreams d h.apart)
    | inr d ↦ ground arith
  ],
  hr,
)

collect_sources-NoLoop :
    (p : Instance) (inputs : List (ℕ × ℕ)) (g : ℕ) (l : List Source)
    → IsSplit p
    → All (NoLoop inputs) (collect_sources p inputs g l).0
unfolding collect_sources
collect_sources-NoLoop p inputs g [] h = tt
collect_sources-NoLoop p inputs g (s ∷ l) h =
    source-NoLoop p inputs g s (collect_sources p inputs g l) h
      (collect_sources-NoLoop p inputs g l h) (lookup s.saddr inputs) refl

out-has_if :
    (accepts : ℕ → Bool) (j : ℕ) (s : Source) (i : ℕ) (out : List ℕ)
    → has_if i out ≡ false
    → (accepts s.saddr ≡ true → j ≢ i)
    → has_if i (if accepts s.saddr then out ++ (j ∷ []) else out) ≡ false
out-has_if accepts j s i out h k = elim (Bool-cases (accepts s.saddr)) [
  | inl e ↦ rw e (has_if-append i j out h (k e))
  | inr e ↦ rw e h
]

push_interface-NoLoop :
    (inputs : List (ℕ × ℕ)) (accepts : ℕ → Bool) (j : ℕ) (l : ForwardList)
    → ((s i : ℕ) → lookup s inputs ≡ some i → accepts s ≡ true → j ≢ i)
    → All (NoLoop inputs) l
    → All (NoLoop inputs) (push_interface accepts j l)
unfolding push_interface NoLoop
push_interface-NoLoop inputs accepts j [] k h = tt
push_interface-NoLoop inputs accepts j ((s, out) ∷ l) k (hs, h) = (
  λ i e. out-has_if accepts j s i out (hs i e) (k s.saddr i e),
  push_interface-NoLoop inputs accepts j l k h,
)

filter_fun-other :
    (p : Instance) (inputs : List (ℕ × ℕ)) (g j s i : ℕ)
    → lookup s inputs ≡ some i
    → filter_fun p inputs g j s ≡ true
    → j ≢ i
unfolding filter_fun
filter_fun-other p inputs g j s i e h = ground arith

suggested-NoLoop :
    (p : Instance) (inputs : List (ℕ × ℕ)) (g : ℕ) (r : RouteInterface) (q : Querier)
    (l : ForwardList)
    → q.world.if_index ≡ r.index
    → All (NoLoop inputs) l
    → (o : Option GaddrInfo)
    → All (NoLoop inputs) (elim o as (λ _. ForwardList) [
      | none ↦ l
      | some info ↦
          push_interface
            (λ saddr. wants_source info saddr && filter_fun p inputs g r.index saddr)
            q.world.if_index
            l
    ])
suggested-NoLoop p inputs g r q l e h none = h
suggested-NoLoop p inputs g r q l e h (some info) =
    push_interface-NoLoop inputs _ q.world.if_index l
      (λ s i ei ok. ground (arith, filter_fun-other p inputs g r.index s i ei)) h

suggest-NoLoop :
    (p : Instance) (inputs : List (ℕ × ℕ)) (g : ℕ) (r : RouteInterface) (q : Querier)
    (l : ForwardList)
    → q.world.if_index ≡ r.index
    → All (NoLoop inputs) l
    → All
        (NoLoop inputs)
        (suggest_to_forward_traffic q g (λ saddr. filter_fun p inputs g r.index saddr) l)
unfolding suggest_to_forward_traffic
suggest-NoLoop p inputs g r q l e h =
    if-holds (λ (k : ForwardList). All (NoLoop inputs) k) q.db.is_querier _ l
      (suggested-NoLoop p inputs g r q l e h (lookup g q.db.group_info)) h

suggest_all-NoLoop :
    (p : Instance) (inputs : List (ℕ × ℕ)) (g : ℕ) (ds : List (RouteInterface × Querier))
    (l : ForwardList)
    → All (λ d. d.1.world.if_index ≡ d.0.index) ds
    → All (NoLoop inputs) l
    → All (NoLoop inputs) (suggest_all p inputs g ds l)
unfolding suggest_all
suggest_all-NoLoop p inputs g [] l hd h = h
suggest_all-NoLoop p inputs g ((r, q) ∷ ds) l (e, hd) h =
    suggest_all-NoLoop p inputs g ds _ hd (suggest-NoLoop p inputs g r q l e h)

-- Where no upstream is a downstream too, and every querier knows the index of its interface, no source
-- is forwarded to the interface on which it is heard: neither by the rules of the upstreams nor by
-- a querier, whatever the filters let pass.
pub collect_interested_interfaces-NoLoop :
    (p : Instance) (m : RoutingTable) (gaddr : ℕ) (slist : List Source)
    → IsSplit p
    → All (NoLoop (get_interface_map gaddr m)) (collect_interested_interfaces p m gaddr slist)
unfolding collect_interested_interfaces
collect_interested_interfaces-NoLoop p m gaddr slist h =
    let inputs = get_interface_map gaddr m in
    let collected = collect_sources p inputs gaddr slist in
    let hc = collect_sources-NoLoop p inputs gaddr slist h in
    if-holds (λ (k : ForwardList). All (NoLoop inputs) k) collected.1 _ collected.0
      (suggest_all-NoLoop p inputs gaddr p.downstreams collected.0 h.indexes hc) hc
