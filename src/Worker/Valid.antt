-- ===== src/Worker/Valid.antt =====
-- mcproxy/src/proxy/proxy_instance.cpp: the databases of all queriers of an instance stay valid, whatever
-- message its worker takes.
use mathlib.Core.Option
use mcproxy.Base.{ℕ, ◌≡◌, Bool, true, false, Option, some, is_some}
use mcproxy.MapOf.{lookup}
use mcproxy.Membership.{GaddrInfo}
use mcproxy.Querier.Records.{Querier}
use mcproxy.Querier.Invariant.{IsFresh}
use mcproxy.Querier.Elapsed.{IsDue}
use mcproxy.RoutingData.{Stats}
use mcproxy.Forwarding.{RouteInterface}
use mcproxy.Buffer.{Holds}
use mcproxy.Receiver.{new_source_msg, group_record_msg}
use mcproxy.ProxyInstance.{ProxyInstance, Surroundings}
use mcproxy.ProxyInstance.Registration.{throws}
use mcproxy.Worker.{WorkerState, WorkerMsg, config_msg, timer_msg, group_record_msg, new_source_msg}
use mcproxy.Worker.Configs.{HasValidQueriers}

-- A report brings a set of sources without timers; a timer is not used as a source timer too, and a
-- retransmission timer finds its group in exclude mode.
abbrev pub IsExpected : WorkerMsg → ProxyInstance → Type 0
IsExpected (timer_msg unique t) p =
    (t.is_used_as_source_timer ≡ false)
    × ((d : RouteInterface × Querier) (g : GaddrInfo)
        → lookup t.if_index p.downstreams ≡ some d
        → lookup t.gaddr d.1.db.group_info ≡ some g
        → IsDue t.type g)
IsExpected (group_record_msg i r) p = IsFresh r.slist
IsExpected _ p = Unit {0}

-- A message of the configuration for which the constructor of a querier throws.
abbrev pub stops : Surroundings → WorkerMsg → ProxyInstance → Bool
stops e (config_msg c) p = throws e c p
stops e _ p = false

module _ (stats : Stats) (virtual_if : ℕ → ℕ) (has_name : ℕ → Bool) where
  -- There is a next state, and its queriers are valid.
  abbrev pub Stays : Option WorkerState → Type 0
  Stays o = Holds (λ st. HasValidQueriers st.proxy) o × (is_some o ≡ true)
