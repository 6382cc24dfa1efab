-- ===== src/Querier/Views.antt =====
-- What `mali` and `send_Q` of mcproxy/src/proxy/querier.cpp leave of the router state.
use mcproxy.Base.{
  ℕ, ◌≡◌, refl, ap, ◌∙◌, ◌⊎◌, inl, inr, Bool, true, none, some, List, [], arith, Bool-cases,
  Option-cases, is_some, minus_one, is_positive,
}
use mcproxy.SourceList.{contains}
use mcproxy.TimersValues.{get_last_listener_query_time}
use mcproxy.Message.{is_remaining_time_greater_than, key, Source}
use mcproxy.Membership.{GaddrInfo}
use mcproxy.World.{emit, World, send_query}
use mcproxy.Querier.Actions.{
  mali_group, lower_filter_timer, schedule_group_retransmission, query_group, send_q_group,
  send_q_sources,
}
use mcproxy.Querier.Effects.{send_q_sources-Frame, contains-send_q_sources}
use mcproxy.Querier.Table.{view, RouterState-eq}

module _ (w : World) (gaddr : ℕ) (g : GaddrInfo) where
  pub view-send_q_sources :
      (tmp : List Source) (b : Bool) → view (send_q_sources w gaddr g tmp b).0 ≡ view g
  view-send_q_sources tmp b =
      let fr = send_q_sources-Frame w gaddr g tmp b in
      RouterState-eq _ _ fr.same_mode (λ j. contains-send_q_sources w gaddr j g tmp b)
        (λ j. ap (contains key j) fr.same_exclude)

  pub view-mali_group : view (mali_group w gaddr g).0 ≡ view g
  unfolding mali_group
  view-mali_group = refl

-- What an entry keeps under `send_Q` for the group; a filter timer stays one.
pub record GroupFrame (g h : GaddrInfo) : Type 0 where
  pub kept_mode : h.filter_mode ≡ g.filter_mode
  pub kept_include : h.include_requested_list ≡ g.include_requested_list
  pub kept_exclude : h.exclude_list ≡ g.exclude_list
  pub kept_filter_timer :
      is_some g.shared_filter_timer ≡ true → is_some h.shared_filter_timer ≡ true

module _ (w : World) (gaddr : ℕ) where
  lower_filter_timer-GroupFrame : (g : GaddrInfo) → GroupFrame g (lower_filter_timer w gaddr g).0
  unfolding lower_filter_timer
  lower_filter_timer-GroupFrame g = ground arith

  lower_filter_timer_timed :
      (g : GaddrInfo)
      → (is_some g.shared_filter_timer ≡ true) ⊎ (g.group_retransmission_timer ≡ none)
      → is_some (lower_filter_timer w gaddr g).0.shared_filter_timer ≡ true
  unfolding lower_filter_timer
  lower_filter_timer_timed g h = ground arith

  schedule-GroupFrame : (g : GaddrInfo) → GroupFrame g (schedule_group_retransmission w gaddr g).0
  unfolding schedule_group_retransmission
  schedule-GroupFrame g = ground arith

  query_group_defined :
      (g : GaddrInfo)
      → is_some g.shared_filter_timer ≡ true
      → (w' : World) × (query_group (g, w) gaddr ≡ some (g, w'))
  unfolding query_group
  query_group_defined g h = elim (Option-cases g.shared_filter_timer) [
    | inl e ↦ absurd (ground arith)
    | inr (ft, e) ↦
        let llqt = get_last_listener_query_time w.timers_values in
        (emit w (send_query gaddr (is_remaining_time_greater_than w.now ft llqt) []), ground arith)
  ]

GroupFrame-trans : (g h k : GaddrInfo) → GroupFrame g h → GroupFrame h k → GroupFrame g k
GroupFrame-trans g h k p q = record {
  kept_mode = q.kept_mode ∙ p.kept_mode;
  kept_include = q.kept_include ∙ p.kept_include;
  kept_exclude = q.kept_exclude ∙ p.kept_exclude;
  kept_filter_timer = λ e. q.kept_filter_timer (p.kept_filter_timer e);
}

module _ (w : World) (gaddr : ℕ) where
  -- With a filter timer, or outside a retransmission, no null pointer is read.
  pub send_q_group_defined :
      (g : GaddrInfo)
      → (is_some g.shared_filter_timer ≡ true) ⊎ (g.group_retransmission_timer ≡ none)
      → (r : GaddrInfo × World) × (send_q_group w gaddr g ≡ some r) × GroupFrame g r.0
  unfolding send_q_group
  send_q_group_defined g h =
      let l = lower_filter_timer w gaddr g in
      let s = schedule_group_retransmission l.1 gaddr l.0 in
      let lowered = lower_filter_timer-GroupFrame w gaddr g in
      let timed = lower_filter_timer_timed w gaddr g h in
      let scheduled = schedule-GroupFrame l.1 gaddr l.0 in
      let (w', q) = query_group_defined s.1 gaddr s.0 (scheduled.kept_filter_timer timed) in
      elim (Bool-cases (is_positive l.0.group_retransmission_count)) [
        | inl e ↦ ((s.0, w'), rw e q, GroupFrame-trans g l.0 s.0 lowered scheduled)
        | inr e ↦ (
          (
            record (l.0) {
              group_retransmission_timer = none;
              group_retransmission_count = minus_one;
            },
            l.1,
          ),
          rw e refl,
          record {
            kept_mode = lowered.kept_mode;
            kept_include = lowered.kept_include;
            kept_exclude = lowered.kept_exclude;
            kept_filter_timer = lowered.kept_filter_timer;
          },
        )
      ]
