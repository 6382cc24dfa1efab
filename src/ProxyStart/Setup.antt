-- ===== src/ProxyStart/Setup.antt =====
-- mcproxy/src/proxy/proxy_instance.cpp: messages that only set an instance up.
use mcproxy.Base.{ℕ, ◌≡◌, refl, Bool, false, ◌||◌, List, [], ◌∷◌, ◌++◌, arith, ◌==◌}
use mcproxy.Interface.{Interface}
use mcproxy.ProxyInstance.{
  has_upstream, has_downstream, ProxyInstance, ConfigMsg, add_downstream, del_downstream,
  add_upstream, del_upstream, set_global_rule_binding,
}
use mcproxy.ProxyInstance.Registered.{IsRegistered}

abbrev pub uses_priority : ℕ → List ConfigMsg → Bool
uses_priority k [] = false
uses_priority k (add_upstream priority r ∷ l) = (priority == k) || uses_priority k l
uses_priority k (_ ∷ l) = uses_priority k l

abbrev pub adds_upstream : ℕ → List ConfigMsg → Bool
adds_upstream i [] = false
adds_upstream i (add_upstream priority r ∷ l) = (r.index == i) || adds_upstream i l
adds_upstream i (_ ∷ l) = adds_upstream i l

abbrev pub adds_downstream : ℕ → List ConfigMsg → Bool
adds_downstream i [] = false
adds_downstream i (add_downstream r tv ∷ l) = (r.index == i) || adds_downstream i l
adds_downstream i (_ ∷ l) = adds_downstream i l

-- Nothing is deleted, and no two upstream interfaces have the same priority.
unfoldable pub IsSetup : List ConfigMsg → Type 0
IsSetup [] = Unit
IsSetup (add_upstream priority r ∷ l) = (uses_priority priority l ≡ false) × IsSetup l
IsSetup (add_downstream r tv ∷ l) = IsSetup l
IsSetup (set_global_rule_binding rb ∷ l) = IsSetup l
IsSetup (del_downstream i ∷ l) = ⊥
IsSetup (del_upstream i ∷ l) = ⊥

-- Exactly the interfaces that the messages add have come, and all are registered.
pub record Configured (msgs : List ConfigMsg) (p p' : ProxyInstance) : Type 0 where
  pub registered : IsRegistered p'
  pub upstreams_are :
      (i : ℕ) → has_upstream i p'.upstreams ≡ (has_upstream i p.upstreams || adds_upstream i msgs)
  pub downstreams_are :
      (i : ℕ) → has_downstream i p' ≡ (has_downstream i p || adds_downstream i msgs)

-- An interface of the list has the index.
abbrev pub mentions : (Interface → ℕ) → ℕ → List Interface → Bool
mentions index i [] = false
mentions index i (u ∷ l) = (index u == i) || mentions index i l

pub uses_priority-append :
    (i : ℕ) (a b : List ConfigMsg)
    → uses_priority i (a ++ b) ≡ (uses_priority i a || uses_priority i b)
uses_priority-append i [] b = refl
uses_priority-append i (add_upstream k r ∷ a) b = ground (arith, uses_priority-append i a b)
uses_priority-append i (add_downstream r tv ∷ a) b = ground (arith, uses_priority-append i a b)
uses_priority-append i (set_global_rule_binding rb ∷ a) b =
    ground (arith, uses_priority-append i a b)
uses_priority-append i (del_downstream j ∷ a) b = ground (arith, uses_priority-append i a b)
uses_priority-append i (del_upstream j ∷ a) b = ground (arith, uses_priority-append i a b)

pub adds_upstream-append :
    (i : ℕ) (a b : List ConfigMsg)
    → adds_upstream i (a ++ b) ≡ (adds_upstream i a || adds_upstream i b)
adds_upstream-append i [] b = refl
adds_upstream-append i (add_upstream k r ∷ a) b = ground (arith, adds_upstream-append i a b)
adds_upstream-append i (add_downstream r tv ∷ a) b = ground (arith, adds_upstream-append i a b)
adds_upstream-append i (set_global_rule_binding rb ∷ a) b =
    ground (arith, adds_upstream-append i a b)
adds_upstream-append i (del_downstream j ∷ a) b = ground (arith, adds_upstream-append i a b)
adds_upstream-append i (del_upstream j ∷ a) b = ground (arith, adds_upstream-append i a b)

pub adds_downstream-append :
    (i : ℕ) (a b : List ConfigMsg)
    → adds_downstream i (a ++ b) ≡ (adds_downstream i a || adds_downstream i b)
adds_downstream-append i [] b = refl
adds_downstream-append i (add_upstream k r ∷ a) b = ground (arith, adds_downstream-append i a b)
adds_downstream-append i (add_downstream r tv ∷ a) b = ground (arith, adds_downstream-append i a b)
adds_downstream-append i (set_global_rule_binding rb ∷ a) b =
    ground (arith, adds_downstream-append i a b)
adds_downstream-append i (del_downstream j ∷ a) b = ground (arith, adds_downstream-append i a b)
adds_downstream-append i (del_upstream j ∷ a) b = ground (arith, adds_downstream-append i a b)
