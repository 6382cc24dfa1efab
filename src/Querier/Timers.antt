-- ===== src/Querier/Timers.antt =====
-- What the source timers and the filter timer of mcproxy/src/proxy/querier.cpp do to the membership
-- database.
use mcproxy.Base.{ℕ, ◌≡◌, refl, ◌∙◌, inl, inr, none, some, [], arith}
use mcproxy.SourceList.{find?, contains}
use mcproxy.MapOf.{lookup}
use mcproxy.Protocol.{include_mode, exclude_mode}
use mcproxy.Message.{TimerMsg}
use mcproxy.Membership.{GaddrInfo}
use mcproxy.Querier.Records.{store, store_used, Querier}
use mcproxy.Querier.Expiry.{
  notify_routing, drop_expired, exclude_expired, timer_triggerd_source_timer, leave_exclude_mode,
}
use mcproxy.Querier.Table.{view, RouterState-eq}
use mcproxy.Querier.Invariant.{Timed, AreSets, IsValid}
use mcproxy.Querier.Outcomes.{store-Outcome, store_used-Outcome, McFilter-cases, Outcome}
use mcproxy.Querier.Expired.{
  expired, contains-drop_expired, contains-exclude_expired, exclude_expired-IsSorted,
  exclude_expired-Untimed, drop_expired-Timed, drop_expired-IsSorted,
}
use mcproxy.Querier.Rows.{
  dropped_row, moved_row, source_row, filter_row, source_row-include, source_row-exclude,
  filter_row-exclude, filter_row-include, notify_routing-Outcome, transport_Outcome,
  unchanged_Outcome,
}

module _ (q : Querier) (gaddr : ℕ) (g : GaddrInfo) (v : IsValid g) where
  module _ (msg : TimerMsg) where
    -- The entry after its expired sources are dropped, in include mode.
    abbrev dropped : GaddrInfo
    dropped = record g { include_requested_list = drop_expired msg g.include_requested_list }

    -- The entry after its expired sources became excluded, in exclude mode.
    abbrev moved : GaddrInfo
    moved = record g {
      include_requested_list = drop_expired msg g.include_requested_list;
      exclude_list = exclude_expired msg g.include_requested_list g.exclude_list;
    }

    moved-AreSets : AreSets moved.include_requested_list moved.exclude_list
    moved-AreSets = record {
      include_sorted = drop_expired-IsSorted msg g.include_requested_list v.include_sorted;
      exclude_sorted =
          exclude_expired-IsSorted msg g.include_requested_list g.exclude_list v.exclude_sorted;
      disjoint = λ j e. ground (
        arith,
        e,
        v.disjoint j,
        contains-drop_expired j msg g.include_requested_list v.include_sorted,
        contains-exclude_expired j 0 msg g.include_requested_list g.exclude_list v.include_sorted
            v.exclude_sorted,
      );
      untimed =
          exclude_expired-Untimed msg g.include_requested_list g.exclude_list v.exclude_sorted
            v.untimed;
    }

    dropped-AreSets : AreSets dropped.include_requested_list g.exclude_list
    dropped-AreSets = record {
      include_sorted = drop_expired-IsSorted msg g.include_requested_list v.include_sorted;
      exclude_sorted = v.exclude_sorted;
      disjoint = λ j e. ground (
        arith,
        e,
        v.disjoint j,
        contains-drop_expired j msg g.include_requested_list v.include_sorted,
      );
      untimed = v.untimed;
    }

    rest-Timed : Timed dropped.include_requested_list
    rest-Timed = drop_expired-Timed msg g.include_requested_list v.include_sorted v.timed

    dropped-IsValid : IsValid dropped
    dropped-IsValid = record {
      sets = dropped-AreSets;
      timed = rest-Timed;
      filter_timed = v.filter_timed;
      none_excluded = v.none_excluded;
    }

    moved-IsValid : g.filter_mode ≡ exclude_mode → IsValid moved
    moved-IsValid m = record {
      sets = moved-AreSets;
      timed = rest-Timed;
      filter_timed = v.filter_timed;
      none_excluded = λ e. absurd (ground (arith, e, m));
    }

    dropped-view :
        g.filter_mode ≡ include_mode
        → view dropped ≡ source_row (expired msg g.include_requested_list) (view g)
    dropped-view m =
        RouterState-eq (view dropped) (dropped_row (expired msg g.include_requested_list) (view g))
          refl (λ j. contains-drop_expired j msg g.include_requested_list v.include_sorted)
          (λ j. refl)
        ∙ source_row-include (expired msg g.include_requested_list) (view g) m

    moved-view :
        g.filter_mode ≡ exclude_mode
        → view moved ≡ source_row (expired msg g.include_requested_list) (view g)
    moved-view m =
        RouterState-eq (view moved) (moved_row (expired msg g.include_requested_list) (view g)) refl
          (λ j. contains-drop_expired j msg g.include_requested_list v.include_sorted)
          (λ j.
            contains-exclude_expired j 0 msg g.include_requested_list g.exclude_list
              v.include_sorted v.exclude_sorted)
        ∙ source_row-exclude (expired msg g.include_requested_list) (view g) m

    source_timer_include :
        g.filter_mode ≡ include_mode
        → notify_routing gaddr (store_used q gaddr (dropped, q.world))
          ≡ timer_triggerd_source_timer q gaddr g msg
    unfolding timer_triggerd_source_timer
    source_timer_include m = simp m refl

    source_timer_exclude :
        g.filter_mode ≡ exclude_mode
        → notify_routing gaddr (store q gaddr (moved, q.world))
          ≡ timer_triggerd_source_timer q gaddr g msg
    unfolding timer_triggerd_source_timer
    source_timer_exclude m = simp m refl

    pub source_timer-Outcome :
        Outcome q
          (timer_triggerd_source_timer q gaddr g msg)
          gaddr
          (source_row (expired msg g.include_requested_list) (view g))
    source_timer-Outcome = elim (McFilter-cases g.filter_mode) [
      | inl m ↦
          let q' = store_used q gaddr (dropped, q.world) in
          let o = store_used-Outcome q gaddr dropped q.world dropped-IsValid in
          transport_Outcome q _ _ gaddr (source_timer_include m) (dropped-view m)
            (notify_routing-Outcome q q' gaddr (view dropped) o)
      | inr m ↦
          let q' = store q gaddr (moved, q.world) in
          let o = store-Outcome q gaddr moved q.world (moved-IsValid m) in
          transport_Outcome q _ _ gaddr (source_timer_exclude m) (moved-view m)
            (notify_routing-Outcome q q' gaddr (view moved) o)
    ]

  -- The entry after the filter timer ran out.
  abbrev left : GaddrInfo
  left = record g { filter_mode = include_mode; shared_filter_timer = none; exclude_list = [] }

  left-IsValid : IsValid left
  unfolding contains find?
  left-IsValid = record {
    sets = record {
      include_sorted = v.include_sorted;
      exclude_sorted = tt;
      disjoint = λ j e. refl;
      untimed = λ j. tt;
    };
    timed = v.timed;
    filter_timed = λ e. absurd (ground (arith, e));
    none_excluded = λ e. refl;
  }

  left-view : g.filter_mode ≡ exclude_mode → view left ≡ filter_row (view g)
  unfolding contains find?
  left-view m = filter_row-exclude (view g) m

  filter_timer_exclude :
      g.filter_mode ≡ exclude_mode
      → notify_routing gaddr (store_used q gaddr (left, q.world)) ≡ leave_exclude_mode q gaddr g
  unfolding leave_exclude_mode
  filter_timer_exclude m = rw m refl

  filter_timer_include : g.filter_mode ≡ include_mode → q ≡ leave_exclude_mode q gaddr g
  unfolding leave_exclude_mode
  filter_timer_include m = rw m refl

  pub filter_timer-Outcome :
      lookup gaddr q.db.group_info ≡ some g
      → Outcome q (leave_exclude_mode q gaddr g) gaddr (filter_row (view g))
  filter_timer-Outcome e = elim (McFilter-cases g.filter_mode) [
    | inl m ↦
        transport_Outcome q _ _ gaddr (filter_timer_include m) (filter_row-include (view g) m)
          (unchanged_Outcome q gaddr g v e)
    | inr m ↦
        let q' = store_used q gaddr (left, q.world) in
        let o = store_used-Outcome q gaddr left q.world left-IsValid in
        transport_Outcome q _ _ gaddr (filter_timer_exclude m) (left-view m)
          (notify_routing-Outcome q q' gaddr (view left) o)
  ]
