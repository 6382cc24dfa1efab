-- ===== src/Worker.antt =====
-- mcproxy/src/proxy/proxy_instance.cpp: `worker_thread`, which hands a message to the querier, the
-- routing or the configuration of its instance, with the callback of the queriers. A test message, which
-- is a function, and the texts for the log are left out.
pub mod Configs
pub mod Results
pub mod Callbacks
pub mod Valid
use mathlib.Core.Option
use mcproxy.Base.{ℕ, ◌*◌, Bool, false, Option, none, some, List, [], ◌∷◌, ◌++◌, map, if◌then◌else◌}
use mcproxy.MapOf.{lookup, put}
use mcproxy.Protocol.{include_mode, exclude_mode}
use mcproxy.TimersValues.{TimersValues}
use mcproxy.Message.{TimerMsg, Source, GroupRecord}
use mcproxy.Membership.{is_in_backward_compatibility_mode, GaddrInfo}
use mcproxy.World.{Action, World, state_change}
use mcproxy.Querier.Records.{
  receive_record_in_include_mode, receive_record_in_exclude_mode, find_or_insert,
  coordinate_compatibility, effective_slist, is_ignored, store, receive_record, Querier,
}
use mcproxy.Querier.Expiry.{timer_triggerd}
use mcproxy.Querier.Invariant.{Timed}
use mcproxy.RoutingData.{Stats}
use mcproxy.MessageQueue.{MessageQueue}
use mcproxy.Text.{Text}
use mcproxy.Addr.{Addr}
use mcproxy.Rules.{Table}
use mcproxy.Interface.{Interface}
use mcproxy.Ending.{Ending, undefined}
use mcproxy.Token.{Token}
use mcproxy.Parser.{Parser}
use mcproxy.Configuration.{Configuration}
use mcproxy.Forwarding.{RouteInterface, Instance}
use mcproxy.Receiver.{Receiver}
use mcproxy.Receiver.Registered.{Received}
use mcproxy.VirtualInterfaces.{Interfaces}
use mcproxy.ProxyInstance.{handle_config, ProxyInstance, ConfigMsg, Surroundings}
use mcproxy.ProxyInstance.Forwarded.{instance_of}
use mcproxy.RoutingEvents.{
  event_new_source, event_querier_state_change, timer_triggerd_maintain_routing_table, RoutingState,
}

-- `m_running` and the parts of the instance that its messages change.
pub record WorkerState : Type 0 where
  pub proxy : ProxyInstance
  pub routing : RoutingState
  pub m_running : Bool

-- The messages by their types. What `unique()` says is an input of those that carry timers.
pub data WorkerMsg : Type 0 where
  config_msg : ConfigMsg → WorkerMsg
  timer_msg : Bool → TimerMsg → WorkerMsg
  -- with the index of the interface
  group_record_msg : ℕ → GroupRecord → WorkerMsg
  -- interface, group and source
  new_source_msg : ℕ → ℕ → ℕ → WorkerMsg
  -- with the number of the message
  new_source_timer_msg : Bool → ℕ → ℕ → ℕ → ℕ → WorkerMsg
  debug_msg : WorkerMsg
  exit_msg : WorkerMsg

-- The groups whose change a querier told, the oldest first.
unfoldable pub notified : List Action → List ℕ
notified [] = []
notified (state_change gaddr ∷ l) = notified l ++ (gaddr ∷ [])
notified (_ ∷ l) = notified l

-- The querier at the time of a message, and what it did before.
abbrev pub at_time : Surroundings → Querier → Querier
at_time e q = record q {
  world = record (q.world) { now = e.now; next_id = e.next_id; actions = [] };
}

abbrev pub after_actions : List Action → Querier → Querier
after_actions before q = record q {
  world = record (q.world) { actions = q.world.actions ++ before };
}

-- `process_record` and `receive_record` up to the end of the handler of the record, whose last call is the
-- callback: a group that turns out to be unused is erased only after it.
unfoldable pub notify_record :
    Querier → GroupRecord → List Source → GaddrInfo × World → Option Querier
notify_record q gr slist (g, w) = elim g.filter_mode [
  | include_mode ↦
      some (store q gr.gaddr (receive_record_in_include_mode w gr.record_type gr.gaddr slist g))
  | exclude_mode ↦
      Option.map (store q gr.gaddr)
        (receive_record_in_exclude_mode w gr.record_type gr.gaddr slist g)
]

unfoldable pub notifying_querier : Querier → GroupRecord → Option Querier
notifying_querier q gr =
    let g = find_or_insert q.db gr.gaddr in
    let (g', w') = coordinate_compatibility q.world q.db.querier_version_mode gr g in
    let compatible = is_in_backward_compatibility_mode g' in
    if is_ignored compatible gr.record_type
    then some (store q gr.gaddr (g', w'))
    else notify_record q gr (effective_slist compatible gr.record_type gr.slist) (g', w')

module _ (stats : Stats) (virtual_if : ℕ → ℕ) (has_name : ℕ → Bool) where
  -- `m_cb_state_change` is `event_querier_state_change` of the routing.
  unfoldable pub run_callbacks : Instance → List ℕ → RoutingState → Option RoutingState
  run_callbacks p [] st = some st
  run_callbacks p (gaddr ∷ l) st = elim (event_querier_state_change stats virtual_if p gaddr st) [
    | none ↦ none
    | some st' ↦ run_callbacks p l st'
  ]

  -- The querier is changed where it stands: its callback sees it as `seen`, and `q` is what the handler
  -- leaves. A timer's handler makes its callback last, since `is_used_as_source_timer` is never set. Both
  -- have what the querier did before.
  unfoldable pub put_querier :
      ℕ
      → RouteInterface × Querier
      → WorkerState
      → Option Querier
      → Option Querier
      → Option WorkerState
  put_querier i d st none o = none
  put_querier i d st (some seen) none = none
  put_querier i d st (some seen) (some q) =
      let changed : Querier → ProxyInstance = λ x. record (st.proxy) {
        downstreams = put i (d.0, after_actions d.1.world.actions x) st.proxy.downstreams;
      } in
      Option.map (λ r. record st { proxy = changed q; routing = r })
        (run_callbacks (instance_of has_name (changed seen)) (notified q.world.actions) st.routing)

  -- `m_downstreams.find`: without a querier of the interface the message is dropped. `seen` gives the
  -- querier at its callback.
  unfoldable pub with_querier :
      Surroundings
      → ℕ
      → (Querier → Option Querier)
      → (Querier → Option Querier)
      → WorkerState
      → Option WorkerState
  with_querier e i seen handler st = elim (lookup i st.proxy.downstreams) [
    | none ↦ some st
    | some d ↦ put_querier i d st (seen (at_time e d.1)) (handler (at_time e d.1))
  ]

  -- One round of the loop. `none`: undefined behaviour, or an exception that nothing catches.
  unfoldable pub dispatch : Surroundings → WorkerMsg → WorkerState → Option WorkerState
  dispatch e (config_msg c) st =
      Option.map (λ p. record st { proxy = p }) (handle_config e c st.proxy)
  dispatch e (timer_msg unique t) st =
      with_querier e t.if_index (λ q. timer_triggerd unique q t) (λ q. timer_triggerd unique q t) st
  dispatch e (group_record_msg i r) st =
      with_querier e i (λ q. notifying_querier q r) (λ q. receive_record q r) st
  dispatch e (new_source_msg i gaddr saddr) st =
      Option.map (λ r. record st { routing = r })
        (event_new_source stats virtual_if (instance_of has_name st.proxy) i gaddr saddr st.routing)
  dispatch e (new_source_timer_msg unique id i gaddr saddr) st =
      Option.map (λ r. record st { routing = r })
        (timer_triggerd_maintain_routing_table stats virtual_if (instance_of has_name st.proxy)
          unique id i gaddr saddr st.routing)
  dispatch e debug_msg st = some st
  dispatch e exit_msg st = some (record st { m_running = false })
