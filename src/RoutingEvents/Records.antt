-- ===== src/RoutingEvents/Records.antt =====
-- mcproxy/src/proxy/simple_mc_proxy_routing.cpp: the records that the events send, one for each upstream
-- interface, from what was gathered for it.
use mathlib.Core.List.{append-nil, append_assoc}
use mcproxy.Base.{
  ℕ, ◌≡◌, refl, sym, ap, ◌∙◌, Bool, true, ◌&&◌, Option, none, some, List, [], ◌∷◌, ◌++◌, map, ◌==◌,
  if◌then◌else◌, ==_iff, if-holds,
}
use mcproxy.Message.{Source}
use mcproxy.Aggregation.{
  empty_state, merge_all, Memberships, get_group_memberships, process_upstream,
  process_upstream_in_first, SourceState, Downstream, Upstream,
}
use mcproxy.Aggregation.Mutex.{
  clean_data, is_heard, sort_sources, sort_downstreams, mutex_from, process_upstream_in_mutex,
}
use mcproxy.RoutingData.{RoutingTable, Stats, get_available_sources, get_interface_map}
use mcproxy.Interface.{RbRuleMatchingType, rmt_all, rmt_first, rmt_mutex, rmt_undefined}
use mcproxy.Forwarding.{is_upstream, RouteInterface, Instance}
use mcproxy.RoutingEvents.{
  act, upstreams_for, downstreams_for, interface_memberships, send_memberships,
  process_membership_aggregation, routes, event_querier_state_change, RoutingAction, RoutingState,
  sends_record,
}

abbrev indexes : Memberships → List ℕ
indexes m = map (λ e. e.0) m

process_upstream_in_first-indexes :
    (ups : List Upstream) (downs : List Downstream)
    → indexes (process_upstream_in_first ups downs) ≡ map (λ u. u.if_index) ups
unfolding process_upstream_in_first
process_upstream_in_first-indexes [] downs = refl
process_upstream_in_first-indexes (u ∷ ups) downs =
    ap (λ l. u.if_index ∷ l) (process_upstream_in_first-indexes ups (process_upstream u downs).1)

clean_data-indexes : (saddr : ℕ) (m : Memberships) → indexes (clean_data saddr m) ≡ indexes m
unfolding clean_data
clean_data-indexes saddr [] = refl
clean_data-indexes saddr ((i, states) ∷ m) = ap (λ l. i ∷ l) (clean_data-indexes saddr m)

indexes-append :
    (m : Memberships) (i : ℕ) (states : List SourceState)
    → indexes (m ++ ((i, states) ∷ [])) ≡ indexes m ++ (i ∷ [])
indexes-append [] i states = refl
indexes-append ((j, st) ∷ m) i states = ap (λ l. j ∷ l) (indexes-append m i states)

module _ (inputs : List (ℕ × ℕ)) (is_up : ℕ → Bool) where
  sort_sources-indexes :
      (u : Upstream) (output : ℕ → Bool) (l : List Source) (m : Memberships)
      → indexes (sort_sources inputs is_up u output l m).gathered ≡ indexes m
  unfolding sort_sources
  sort_sources-indexes u output [] m = refl
  sort_sources-indexes u output (s ∷ l) m =
      let cleaned = (output s.saddr && u.match_input_filter s.saddr) && is_heard inputs s.saddr in
      sort_sources-indexes u output l (if cleaned then clean_data s.saddr m else m)
      ∙ if-holds (λ k. indexes k ≡ indexes m) cleaned (clean_data s.saddr m) m
          (clean_data-indexes s.saddr m) refl

  sort_downstreams-indexes :
      (u : Upstream) (downs : List Downstream) (m : Memberships)
      → indexes (sort_downstreams inputs is_up u downs m).1.1 ≡ indexes m
  unfolding sort_downstreams
  sort_downstreams-indexes u [] m = refl
  sort_downstreams-indexes u (d ∷ l) m =
      let output = d.match_output_filter u.if_index in
      let sorted = sort_sources inputs is_up u output d.state.source_list m in
      sort_downstreams-indexes u l sorted.gathered
      ∙ sort_sources-indexes u output d.state.source_list m

  mutex_from-indexes :
      (ups : List Upstream) (downs : List Downstream) (m : Memberships)
      → indexes (mutex_from inputs is_up ups downs m) ≡ indexes m ++ map (λ u. u.if_index) ups
  unfolding mutex_from
  mutex_from-indexes [] downs m = sym (append-nil (indexes m))
  mutex_from-indexes (u ∷ ups) downs m =
      let sorted = sort_downstreams inputs is_up u downs m in
      mutex_from-indexes ups sorted.1.0 (sorted.1.1 ++ ((u.if_index, sorted.0) ∷ []))
      ∙ (ap (λ l. l ++ map (λ v. v.if_index) ups)
            (indexes-append sorted.1.1 u.if_index sorted.0
              ∙ ap (λ l. l ++ (u.if_index ∷ [])) (sort_downstreams-indexes u downs m))
          ∙ append_assoc (indexes m) (u.if_index ∷ []) (map (λ v. v.if_index) ups))

-- One record for each entry: the merged states.
abbrev pub merged : ℕ → Memberships → List RoutingAction
merged gaddr m = map (λ e. sends_record e.0 gaddr (merge_all empty_state e.1)) m

send_memberships-merged :
    (gaddr : ℕ) (ups : List RouteInterface) (m : Memberships)
    → indexes m ≡ map (λ u. u.index) ups
    → send_memberships gaddr ups m ≡ some (merged gaddr m)
unfolding send_memberships get_group_memberships
send_memberships-merged gaddr [] [] h = refl
send_memberships-merged gaddr [] (e ∷ m) h = cc
send_memberships-merged gaddr (u ∷ ups) [] h = cc
send_memberships-merged gaddr (u ∷ ups) ((i, states) ∷ m) h =
    let same : i ≡ u.index = cc in
    let rest : indexes m ≡ map (λ v. v.index) ups = cc in
    let known : (i == u.index) ≡ true = (==_iff i u.index).1 same in
    rw known (
      rw (send_memberships-merged gaddr ups m rest) (
        ap (λ k. some (sends_record k gaddr (merge_all empty_state states) ∷ merged gaddr m))
          (sym same)))

upstreams_for-indexes :
    (ups : List RouteInterface) (gaddr : ℕ)
    → map
        (λ (u : Upstream). u.if_index)
        (map
          (λ (u : RouteInterface). record {
            if_index = u.index;
            match_input_filter = λ saddr. u.match_input u.index gaddr saddr;
          })
          ups)
      ≡ map (λ u. u.index) ups
upstreams_for-indexes [] gaddr = refl
upstreams_for-indexes (u ∷ ups) gaddr = ap (λ l. u.index ∷ l) (upstreams_for-indexes ups gaddr)

interface_memberships-indexes :
    (p : Instance) (known_sources : RoutingTable) (rmt : RbRuleMatchingType) (gaddr : ℕ)
    → indexes (interface_memberships p known_sources rmt gaddr) ≡ map (λ u. u.index) p.upstreams
unfolding interface_memberships process_upstream_in_mutex upstreams_for
interface_memberships-indexes p known_sources rmt_first gaddr =
    process_upstream_in_first-indexes (upstreams_for p gaddr) (downstreams_for p gaddr)
    ∙ upstreams_for-indexes p.upstreams gaddr
interface_memberships-indexes p known_sources rmt_mutex gaddr =
    mutex_from-indexes (get_interface_map gaddr known_sources) (is_upstream p)
      (upstreams_for p gaddr) (downstreams_for p gaddr) []
    ∙ upstreams_for-indexes p.upstreams gaddr
interface_memberships-indexes p known_sources rmt_all gaddr =
    mutex_from-indexes (get_interface_map gaddr known_sources) (is_upstream p)
      (upstreams_for p gaddr) (downstreams_for p gaddr) []
    ∙ upstreams_for-indexes p.upstreams gaddr
interface_memberships-indexes p known_sources rmt_undefined gaddr =
    mutex_from-indexes (get_interface_map gaddr known_sources) (is_upstream p)
      (upstreams_for p gaddr) (downstreams_for p gaddr) []
    ∙ upstreams_for-indexes p.upstreams gaddr

-- The records for a rule type: none for the types that are no types of this rule.
abbrev pub records_of : Instance → RoutingTable → Option RbRuleMatchingType → ℕ → List RoutingAction
records_of p known_sources (some rmt_first) gaddr =
    merged gaddr (interface_memberships p known_sources rmt_first gaddr)
records_of p known_sources (some rmt_mutex) gaddr =
    merged gaddr (interface_memberships p known_sources rmt_mutex gaddr)
records_of p known_sources _ gaddr = []

pub aggregation-records :
    (p : Instance) (known_sources : RoutingTable) (rmt : RbRuleMatchingType) (gaddr : ℕ)
    → process_membership_aggregation p known_sources rmt gaddr
      ≡ some (records_of p known_sources (some rmt) gaddr)
unfolding process_membership_aggregation
aggregation-records p known_sources rmt_first gaddr =
    send_memberships-merged gaddr p.upstreams
      (interface_memberships p known_sources rmt_first gaddr)
      (interface_memberships-indexes p known_sources rmt_first gaddr)
aggregation-records p known_sources rmt_mutex gaddr =
    send_memberships-merged gaddr p.upstreams
      (interface_memberships p known_sources rmt_mutex gaddr)
      (interface_memberships-indexes p known_sources rmt_mutex gaddr)
aggregation-records p known_sources rmt_all gaddr = refl
aggregation-records p known_sources rmt_undefined gaddr = refl

records_by_rule :
    (p : Instance) (known_sources : RoutingTable) (o : Option RbRuleMatchingType) (gaddr : ℕ)
    → (elim o as (λ _. Option (List RoutingAction)) [
      | none ↦ some []
      | some rmt ↦ process_membership_aggregation p known_sources rmt gaddr
    ])
      ≡ some (records_of p known_sources o gaddr)
records_by_rule p known_sources none gaddr = refl
records_by_rule p known_sources (some rmt) gaddr = aggregation-records p known_sources rmt gaddr

-- When the state of a querier changes, the routes for the sources of the group that are heard are set, and
-- then, if the upstreams' input rule is `first` or `mutex`, exactly one record is sent on each upstream
-- interface, in the order of their priorities: the states merged that were gathered for it. The
-- aggregation is never asked for more interfaces than it has.
pub event_querier_state_change-records :
    (stats : Stats) (virtual_if : ℕ → ℕ) (p : Instance) (gaddr : ℕ) (st : RoutingState)
    → event_querier_state_change stats virtual_if p gaddr st
      ≡ some (
          act (records_of p st.table p.input_rule gaddr) (
            act
              (routes stats virtual_if p st.table gaddr (get_available_sources gaddr st.table))
              st))
unfolding event_querier_state_change
event_querier_state_change-records stats virtual_if p gaddr st =
    rw (records_by_rule p st.table p.input_rule gaddr) refl
