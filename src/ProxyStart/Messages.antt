-- ===== src/ProxyStart/Messages.antt =====
-- mcproxy/src/proxy/proxy.cpp: the messages that set an instance up, and what becomes of it.
use mathlib.Core.Option
use mcproxy.Base.{ℕ, ◌≤◌, ◌≡◌, refl, true, false, Option, List}
use mcproxy.SourceList.{find?, contains}
use mcproxy.MapOf.{lookup}
use mcproxy.Protocol.{GroupMemProtocol}
use mcproxy.TimersValues.{TimersValues}
use mcproxy.Text.{Text}
use mcproxy.Addr.{Family}
use mcproxy.Interface.{Interface, InstanceDefinition}
use mcproxy.Receiver.{is_if_index_relevant, Receiver}
use mcproxy.ProxyInstance.{
  has_upstream, has_downstream, new_proxy_instance, ProxyInstance, ConfigMsg,
}
use mcproxy.ProxyInstance.Registered.{IsRegistered}
use mcproxy.ProxyStart.Setup.{uses_priority, adds_upstream, adds_downstream, IsSetup, mentions}

-- What the messages for the interfaces of a list are, from the priority `k` on.
record AreUpstreams (index : Interface → ℕ) (k : ℕ) (l : List Interface) (msgs : List ConfigMsg)
    : Type 0 where
  least : (j : ℕ) → uses_priority j msgs ≡ true → k ≤ j
  setup : IsSetup msgs
  ups : (i : ℕ) → adds_upstream i msgs ≡ mentions index i l
  downs : (i : ℕ) → adds_downstream i msgs ≡ false

-- And for the downstream interfaces.
record AreDownstreams (index : Interface → ℕ) (l : List Interface) (msgs : List ConfigMsg)
    : Type 0 where
  unused : (j : ℕ) → uses_priority j msgs ≡ false
  setup : IsSetup msgs
  ups : (i : ℕ) → adds_upstream i msgs ≡ false
  downs : (i : ℕ) → adds_downstream i msgs ≡ mentions index i l

-- What all messages to an instance are.
record AreStart (index : Interface → ℕ) (d : InstanceDefinition) (msgs : List ConfigMsg)
    : Type 0 where
  setup : IsSetup msgs
  ups : (i : ℕ) → adds_upstream i msgs ≡ mentions index i d.upstreams
  downs : (i : ℕ) → adds_downstream i msgs ≡ mentions index i d.downstreams

module _ (if_nametoindex : Text → ℕ) (if_indextoname : ℕ → Text) (family : Family) where
  abbrev pub index_of : Interface → ℕ
  index_of u = if_nametoindex u.name

  -- The instance has exactly the interfaces of its definition, and exactly they are registered.
  pub record IsStarted (d : InstanceDefinition) (p : ProxyInstance) : Type 0 where
    pub registered : IsRegistered p
    pub upstreams_are : (i : ℕ) → has_upstream i p.upstreams ≡ mentions index_of i d.upstreams
    pub downstreams_are : (i : ℕ) → has_downstream i p ≡ mentions index_of i d.downstreams

  pub new_proxy_instance-IsRegistered :
      (r : Receiver) (gmp : GroupMemProtocol) (name : Text)
      → IsRegistered (new_proxy_instance r gmp name)
  unfolding new_proxy_instance is_if_index_relevant has_upstream lookup contains find?
  new_proxy_instance-IsRegistered r gmp name = record {
    listed = λ i. refl;
    routed = λ i. refl;
    sorted = tt;
    distinct = tt;
    indexed = tt;
  }
