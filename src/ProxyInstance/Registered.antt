-- ===== src/ProxyInstance/Registered.antt =====
-- mcproxy/src/proxy/proxy_instance.cpp: what it means that the interfaces that are registered are those
-- of the instance, and the calls that register one.
use mcproxy.Base.{
  ℕ, ◌≡◌, subst, Bool, true, false, not, ◌&&◌, ◌||◌, List, [], ◌∷◌, arith, ltb, ◌==◌, ==_iff,
  if-holds, All,
}
use mcproxy.SourceList.{insert, erase, contains, Ascending, IsSorted}
use mcproxy.SourceList.Laws.{insert-Ascending, erase-Ascending, find?-insert, find?-erase}
use mcproxy.MapOf.{put, remove}
use mcproxy.Receiver.{is_if_index_relevant, registrate_interface, del_relevant_interface}
use mcproxy.ProxyInstance.{
  priority_of, has_upstream, has_downstream, register, unregister, RoutingCall, ProxyInstance,
  ConfigMsg, add_vif, del_vif, add_upstream,
}
use mcproxy.ProxyInstance.Upstreams.{Distinct}

-- Whether an interface is one of the routing: what its last call said, where the newest stands first.
abbrev pub is_routed : ℕ → List RoutingCall → Bool
is_routed i [] = false
is_routed i (add_vif j ∷ l) = (j == i) || is_routed i l
is_routed i (del_vif j ∷ l) = not (j == i) && is_routed i l

-- Exactly the upstream and downstream interfaces are registered with the receiver and the routing, no two upstream interfaces have the
-- same index, and the querier of a downstream interface knows its index.
pub record IsRegistered (p : ProxyInstance) : Type 0 where
  pub listed :
      (i : ℕ)
      → is_if_index_relevant p.receiver i ≡ (has_upstream i p.upstreams || has_downstream i p)
  pub routed : (i : ℕ) → is_routed i p.calls ≡ is_if_index_relevant p.receiver i
  pub sorted : IsSorted (λ i. i) p.receiver.relevant_if_index
  pub distinct : Distinct p.upstreams
  pub indexed : All (λ d. (d.1.0.index ≡ d.0) × (d.1.1.world.if_index ≡ d.0)) p.downstreams

-- The priority of an upstream interface that is added is not taken.
abbrev pub HasFreePriority : ConfigMsg → ProxyInstance → Type 0
HasFreePriority (add_upstream priority r) p = contains priority_of priority p.upstreams ≡ false
HasFreePriority _ p = Unit {0}

pub contains-insert :
    (j b i : ℕ) (l : List ℕ)
    → Ascending (λ k. k) b l
    → contains (λ k. k) j (insert (λ k. k) i l) ≡ ((i == j) || contains (λ k. k) j l)
unfolding contains
contains-insert j b i l h = ground (arith, find?-insert (λ k. k) j b i l h)

pub contains-erase :
    (j i : ℕ) (l : List ℕ)
    → contains (λ k. k) j (erase (λ k. k) i l) ≡ (contains (λ k. k) j l && not (i == j))
unfolding contains
contains-erase j i l = ground (arith, find?-erase (λ k. k) j i l)

pub All-put :
    {V : Type 0} (P : ℕ × V → Type 0) (k : ℕ) (v : V) (m : List (ℕ × V))
    → P (k, v)
    → All P m
    → All P (put k v m)
unfolding put
All-put P k v [] hp h = (hp, tt)
All-put P k v ((j, w) ∷ m) hp h =
    if-holds (All P) (ltb k j) _ _ (hp, h)
      (if-holds (All P) (j == k) _ _ (hp, h.1) (h.0, All-put P k v m hp h.1))

pub All-remove :
    {V : Type 0} (P : ℕ × V → Type 0) (k : ℕ) (m : List (ℕ × V)) → All P m → All P (remove k m)
unfolding remove
All-remove P k [] h = tt
All-remove P k ((j, w) ∷ m) h =
    if-holds (All P) (j == k) _ _ (All-remove P k m h.1) (h.0, All-remove P k m h.1)

-- A test that holds at `i`, at an equal number.
pub holds_at : (b : ℕ → Bool) (i j : ℕ) → b i ≡ true → (i == j) ≡ true → b j ≡ true
holds_at b i j h e = subst (λ k. b k ≡ true) ((==_iff i j).0 e) h

pub register-IsSorted :
    (i : ℕ) (p : ProxyInstance)
    → IsSorted (λ k. k) p.receiver.relevant_if_index
    → IsSorted (λ k. k) (register i p).receiver.relevant_if_index
unfolding register registrate_interface
register-IsSorted i p h = insert-Ascending (λ k. k) 0 i p.receiver.relevant_if_index (omega arith) h

pub unregister-IsSorted :
    (i : ℕ) (p : ProxyInstance)
    → IsSorted (λ k. k) p.receiver.relevant_if_index
    → IsSorted (λ k. k) (unregister i p).receiver.relevant_if_index
unfolding unregister del_relevant_interface
unregister-IsSorted i p h = erase-Ascending (λ k. k) 0 i p.receiver.relevant_if_index h

pub register-relevant :
    (j i : ℕ) (p : ProxyInstance)
    → IsSorted (λ k. k) p.receiver.relevant_if_index
    → is_if_index_relevant (register i p).receiver j
      ≡ ((i == j) || is_if_index_relevant p.receiver j)
unfolding register registrate_interface is_if_index_relevant
register-relevant j i p h = contains-insert j 0 i p.receiver.relevant_if_index h

pub unregister-relevant :
    (j i : ℕ) (p : ProxyInstance)
    → is_if_index_relevant (unregister i p).receiver j
      ≡ (is_if_index_relevant p.receiver j && not (i == j))
unfolding unregister del_relevant_interface is_if_index_relevant
unregister-relevant j i p = contains-erase j i p.receiver.relevant_if_index

pub register-routed :
    (j i : ℕ) (p : ProxyInstance)
    → IsSorted (λ k. k) p.receiver.relevant_if_index
    → is_routed j p.calls ≡ is_if_index_relevant p.receiver j
    → is_routed j (register i p).calls ≡ is_if_index_relevant (register i p).receiver j
unfolding register
register-routed j i p h e = ground (arith, e, register-relevant j i p h)

pub unregister-routed :
    (j i : ℕ) (p : ProxyInstance)
    → is_routed j p.calls ≡ is_if_index_relevant p.receiver j
    → is_routed j (unregister i p).calls ≡ is_if_index_relevant (unregister i p).receiver j
unfolding unregister
unregister-routed j i p e = ground (arith, e, unregister-relevant j i p)
