-- ===== src/Worker/Results.antt =====
-- mcproxy/src/proxy/proxy_instance.cpp: the handlers of the routing have a result for every message.
use mathlib.Core.Option
use mcproxy.Base.{
  ℕ, ◌≡◌, refl, Bool, true, Option, none, some, List, [], ◌∷◌, arith, is_some, if-holds,
}
use mcproxy.RoutingData.{RoutingTable, Stats, refresh_source_or_del_it_if_unused}
use mcproxy.Interface.{rmt_mutex}
use mcproxy.Forwarding.{Instance}
use mcproxy.RoutingEvents.{
  process_membership_aggregation, is_mutex, aggregate_mutex, event_new_source, maintain_source,
  timer_triggerd_maintain_routing_table, RoutingAction, RoutingState,
}
use mcproxy.RoutingEvents.Records.{aggregation-records, event_querier_state_change-records}
use mcproxy.Worker.{run_callbacks}

module _ (stats : Stats) (virtual_if : ℕ → ℕ) (has_name : ℕ → Bool) where
  pub run_callbacks-Returns :
      (p : Instance) (l : List ℕ) (st : RoutingState)
      → is_some (run_callbacks stats virtual_if has_name p l st) ≡ true
  unfolding run_callbacks
  run_callbacks-Returns p [] st = refl
  run_callbacks-Returns p (gaddr ∷ l) st =
      rw (is_some, event_querier_state_change-records stats virtual_if p gaddr st)
        (run_callbacks-Returns p l _)

  map-is_some :
      {A B : Type 0} (f : A → B) (o : Option A) → is_some o ≡ true → is_some (Option.map f o) ≡ true
  map-is_some f none h = absurd (ground (arith, h))
  map-is_some f (some a) h = refl

  aggregate_mutex-Returns :
      (p : Instance) (known_sources : RoutingTable) (gaddr : ℕ)
      → is_some (aggregate_mutex p known_sources gaddr) ≡ true
  unfolding aggregate_mutex
  aggregate_mutex-Returns p known_sources gaddr =
      if-holds (λ (o : Option (List RoutingAction)). is_some o ≡ true) (is_mutex p.input_rule)
        (process_membership_aggregation p known_sources rmt_mutex gaddr) (some [])
        (rw (is_some, aggregation-records p known_sources rmt_mutex gaddr) refl) refl

  pub event_new_source-Returns :
      (p : Instance) (i gaddr saddr : ℕ) (st : RoutingState)
      → is_some (event_new_source stats virtual_if p i gaddr saddr st) ≡ true
  unfolding event_new_source
  event_new_source-Returns p i gaddr saddr st = map-is_some _ _ (aggregate_mutex-Returns p _ gaddr)

  maintain_source-Returns :
      (p : Instance) (i gaddr saddr : ℕ) (st : RoutingState)
      → is_some (maintain_source stats virtual_if p i gaddr saddr st) ≡ true
  unfolding maintain_source
  maintain_source-Returns p i gaddr saddr st =
      let table = (refresh_source_or_del_it_if_unused stats gaddr saddr st.table).1 in
      ground (arith, aggregate_mutex-Returns p table gaddr)

  pub maintain-Returns :
      (p : Instance) (unique : Bool) (id i gaddr saddr : ℕ) (st : RoutingState)
      → is_some
          (timer_triggerd_maintain_routing_table stats virtual_if p unique id i gaddr saddr st)
        ≡ true
  unfolding timer_triggerd_maintain_routing_table
  maintain-Returns p unique id i gaddr saddr st =
      ground (arith, maintain_source-Returns p i gaddr saddr st)
