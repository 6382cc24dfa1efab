-- ===== src/Querier/ExcludeValid.antt =====
-- `receive_record_in_exclude_mode` of mcproxy/src/proxy/querier.cpp returns and keeps an entry valid.
use mcproxy.Base.{ℕ, ◌≡◌, refl, ◌∙◌, ◌⊎◌, inl, inr, true, false, Option, some, List, arith, is_some}
use mcproxy.SourceList.{find?, contains, inter, diff}
use mcproxy.SourceList.Laws.{find?-union, find?-diff, find?-inter, inter-Ascending}
use mcproxy.Protocol.{
  McFilter, RecordType, include_mode, exclude_mode, mode_is_include, mode_is_exclude,
  change_to_include_mode, change_to_exclude_mode, allow_new_sources, block_old_sources,
  unknown_record,
}
use mcproxy.Message.{key, Source}
use mcproxy.Membership.{GaddrInfo}
use mcproxy.World.{World}
use mcproxy.Querier.Actions.{mali_group, mali_sources, send_q_sources}
use mcproxy.Querier.Records.{notify, receive_record_in_exclude_mode}
use mcproxy.Querier.Effects.{find?-mali_sources, mali_sources-IsSorted, send_q_sources-Frame}
use mcproxy.Querier.Invariant.{HasTimer, Timed, IsUntouched, AreSets, IsValid, IsFresh}
use mcproxy.Querier.Views.{send_q_group_defined}
use mcproxy.Querier.ExcludeTable.{allowing, fresh, blocking, narrowing}
use mcproxy.Querier.Timed.{Timed-mali_sources, send_q_sources_timed, Timed-inter}
use mcproxy.Querier.Lists.{
  AreSets-allow, AreSets-narrow, AreSets-block, AreSets-mali_sources, AreSets-send_q_sources,
  Timed-union, Timed-union_fresh,
}

-- The call returns a valid entry.
abbrev pub ReturnsValid : Option (GaddrInfo × World) → Type 0
ReturnsValid o = (p : GaddrInfo × World) × (o ≡ some p) × IsValid p.0

module _ (w : World) (gaddr : ℕ) (a : List Source) (g : GaddrInfo) (v : IsValid g) (f : IsFresh a)
    (m : g.filter_mode ≡ exclude_mode) where
  allowed : AreSets (allowing a g).include_requested_list (allowing a g).exclude_list
  allowed = AreSets-allow g.include_requested_list g.exclude_list a v.sets

  not_include : (k : McFilter) → k ≡ g.filter_mode → ¬ (k ≡ include_mode)
  not_include k s e = ground arith

  -- ALLOW, and IS_IN, which does the same.
  allow-IsValid : IsValid (record g {
    include_requested_list = (mali_sources w gaddr (allowing a g).include_requested_list a).0;
    exclude_list = (allowing a g).exclude_list;
  })
  allow-IsValid = record {
    sets =
        AreSets-mali_sources w gaddr (allowing a g).include_requested_list
          (allowing a g).exclude_list a allowed;
    timed =
        Timed-mali_sources w gaddr (allowing a g).include_requested_list a
          (λ j. Timed-union j g.include_requested_list a v.include_sorted v.timed);
    filter_timed = λ e. v.filter_timed e;
    none_excluded = λ e. absurd (ground arith);
  }

  block-IsValid : IsValid (send_q_sources w gaddr (blocking a g) (fresh a g) false).0
  block-IsValid =
      let fr = send_q_sources-Frame w gaddr (blocking a g) (fresh a g) false in
      record {
        sets = rw fr.same_exclude (
            AreSets-send_q_sources w gaddr (blocking a g) (fresh a g) false
              (AreSets-block g.include_requested_list g.exclude_list a v.sets));
        timed = λ j. send_q_sources_timed w gaddr (blocking a g) (fresh a g) false j (
            Timed-union_fresh j g.include_requested_list a g.exclude_list v.include_sorted v.timed
              f);
        filter_timed = λ e. rw fr.same_filter_timer (v.filter_timed m);
        none_excluded = λ e. absurd (not_include _ fr.same_mode e);
      }

  kept-Timed : Timed (inter key g.include_requested_list a)
  kept-Timed = Timed-inter g.include_requested_list a v.include_sorted f.sorted v.timed

  -- In `X *= A; X += A - Y` a source without a timer is one of the list itself.
  narrowed_timed :
      (j : ℕ)
      → HasTimer (find? key j (narrowing a g).include_requested_list)
        ⊎ (IsUntouched (find? key j (narrowing a g).include_requested_list)
            × (contains key j (narrowing a g).include_requested_list ≡ true))
  unfolding contains
  narrowed_timed j = ground (
    arith,
    find?-union key j 0 (inter key g.include_requested_list a) (fresh a g)
        (inter-Ascending key 0 g.include_requested_list a v.include_sorted),
    find?-diff key j a g.exclude_list,
    kept-Timed j,
    f.untouched j,
  )

  to_ex-IsValid : ReturnsValid (receive_record_in_exclude_mode w change_to_exclude_mode gaddr a g)
  unfolding receive_record_in_exclude_mode mali_group
  to_ex-IsValid =
      let x = (narrowing a g).include_requested_list in
      let fr = send_q_sources-Frame w gaddr (narrowing a g) x false in
      (
        _,
        refl,
        record {
          sets = rw fr.same_exclude (
              AreSets-send_q_sources w gaddr (narrowing a g) x false
                (AreSets-narrow g.include_requested_list g.exclude_list a v.sets f.sorted));
          timed = λ j. send_q_sources_timed w gaddr (narrowing a g) x false j (narrowed_timed j);
          filter_timed = λ e. refl;
          none_excluded = λ e. absurd (not_include _ fr.same_mode e);
        },
      )

  -- The newcomers of `A` have their timers before `X *= A; X += A - Y`.
  enrolled_timed :
      (j : ℕ)
      → let newcomers = diff key (diff key a g.include_requested_list) g.exclude_list in
        HasTimer
          (find? key j (narrowing (mali_sources w gaddr a newcomers).0 g).include_requested_list)
  unfolding contains
  enrolled_timed j =
      let newcomers = diff key (diff key a g.include_requested_list) g.exclude_list in
      let a' = (mali_sources w gaddr a newcomers).0 in
      let s = mali_sources-IsSorted w gaddr a newcomers f.sorted in
      ground (
        arith,
        find?-union key j 0 (inter key g.include_requested_list a') (fresh a' g)
            (inter-Ascending key 0 g.include_requested_list a' v.include_sorted),
        find?-inter key j 0 0 g.include_requested_list a' v.include_sorted s,
        find?-diff key j a' g.exclude_list,
        find?-mali_sources w gaddr j a newcomers,
        find?-diff key j (diff key a g.include_requested_list) g.exclude_list,
        find?-diff key j a g.include_requested_list,
        v.timed j,
      )

  is_ex-IsValid : ReturnsValid (receive_record_in_exclude_mode w mode_is_exclude gaddr a g)
  unfolding receive_record_in_exclude_mode mali_group
  is_ex-IsValid =
      let newcomers = diff key (diff key a g.include_requested_list) g.exclude_list in
      let a' = (mali_sources w gaddr a newcomers).0 in
      let s = mali_sources-IsSorted w gaddr a newcomers f.sorted in
      (
        _,
        refl,
        record {
          sets = AreSets-narrow g.include_requested_list g.exclude_list a' v.sets s;
          timed = (λ j. enrolled_timed j);
          filter_timed = λ e. refl;
          none_excluded = λ e. absurd (ground arith);
        },
      )

  to_in-IsValid : ReturnsValid (receive_record_in_exclude_mode w change_to_include_mode gaddr a g)
  unfolding receive_record_in_exclude_mode
  to_in-IsValid =
      let left = diff key (allowing a g).include_requested_list a in
      let q = send_q_sources w gaddr (allowing a g) left false in
      let fr = send_q_sources-Frame w gaddr (allowing a g) left false in
      let ft : is_some q.0.shared_filter_timer ≡ true =
        rw fr.same_filter_timer (v.filter_timed m) in
      let (p, sent, kept) = send_q_group_defined q.1 gaddr q.0 (inl ft) in
      let sets = AreSets-send_q_sources w gaddr (allowing a g) left false allowed in
      (
        notify gaddr (
          record (p.0) {
            include_requested_list = (mali_sources p.1 gaddr p.0.include_requested_list a).0;
          },
          (mali_sources p.1 gaddr p.0.include_requested_list a).1,
        ),
        rw (sent, receive_record_in_exclude_mode),
        record {
          sets =
              rw (kept.kept_exclude, fr.same_exclude)
                (AreSets-mali_sources p.1 gaddr p.0.include_requested_list
                  (allowing a g).exclude_list a (rw kept.kept_include sets));
          timed = Timed-mali_sources p.1 gaddr p.0.include_requested_list a (λ j.
              elim (Timed-union j g.include_requested_list a v.include_sorted v.timed) [
                | inl h ↦ inl (
                    rw kept.kept_include
                      (send_q_sources_timed w gaddr (allowing a g) left false j (inl h)))
                | inr e ↦ inr e
              ]);
          filter_timed = λ e. kept.kept_filter_timer ft;
          none_excluded = λ e. absurd (not_include _ (kept.kept_mode ∙ fr.same_mode) e);
        },
      )

  pub exclude-IsValid :
      (type : RecordType) → ReturnsValid (receive_record_in_exclude_mode w type gaddr a g)
  unfolding receive_record_in_exclude_mode
  exclude-IsValid allow_new_sources = (_, refl, allow-IsValid)
  exclude-IsValid mode_is_include = (_, refl, allow-IsValid)
  exclude-IsValid block_old_sources = (_, refl, block-IsValid)
  exclude-IsValid change_to_exclude_mode = to_ex-IsValid
  exclude-IsValid mode_is_exclude = is_ex-IsValid
  exclude-IsValid change_to_include_mode = to_in-IsValid
  exclude-IsValid (unknown_record n) = (_, refl, v)
