-- ===== src/Querier/ExcludeTable.antt =====
-- `receive_record_in_exclude_mode` of mcproxy/src/proxy/querier.cpp against the router state table.
use mcproxy.Base.{ℕ, ◌≡◌, refl, ap, ◌∙◌, inl, false, not, ◌&&◌, Option, some, List, arith}
use mcproxy.SourceList.{contains, union, inter, diff, IsSorted}
use mcproxy.SourceList.Laws.{inter-Ascending}
use mcproxy.SourceList.Members.{contains-union, contains-inter, contains-diff}
use mcproxy.Protocol.{
  RecordType, exclude_mode, mode_is_include, mode_is_exclude, change_to_include_mode,
  change_to_exclude_mode, allow_new_sources, block_old_sources, unknown_record,
}
use mcproxy.Message.{key, Source}
use mcproxy.Membership.{GaddrInfo}
use mcproxy.World.{World}
use mcproxy.Querier.Actions.{mali_group, mali_sources, send_q_sources}
use mcproxy.Querier.Records.{notify, receive_record_in_exclude_mode}
use mcproxy.Querier.Effects.{
  contains-mali_sources, mali_sources-IsSorted, send_q_sources-Frame, contains-send_q_sources,
}
use mcproxy.Querier.Table.{◌⊔◌, ◌⊓◌, ◌∖◌, exclude_row, members, view, RouterState-eq, RouterState}
use mcproxy.Querier.Invariant.{IsValid}
use mcproxy.Querier.Views.{view-send_q_sources, send_q_group_defined}

module _ (a : List Source) (g : GaddrInfo) where
  -- The entry after `X += A; Y -= A`.
  abbrev pub allowing : GaddrInfo
  allowing = record g {
    include_requested_list = union key g.include_requested_list a;
    exclude_list = diff key g.exclude_list a;
  }

  -- `A - Y`
  abbrev pub fresh : List Source
  fresh = diff key a g.exclude_list

  -- The entry after `X += A - Y`.
  abbrev pub blocking : GaddrInfo
  blocking = record g { include_requested_list = union key g.include_requested_list fresh }

  -- The entry after `X *= A; X += A - Y; Y *= A`.
  abbrev pub narrowing : GaddrInfo
  narrowing = record g {
    include_requested_list = union key (inter key g.include_requested_list a) fresh;
    exclude_list = inter key g.exclude_list a;
  }

  module _ (v : IsValid g) (t : IsSorted key a) where
    view-allowing :
        (j : ℕ)
        → (contains key j allowing.include_requested_list
            ≡ (members g.include_requested_list ⊔ members a) j)
          × (contains key j allowing.exclude_list ≡ (members g.exclude_list ∖ members a) j)
    view-allowing j = (
      contains-union key j g.include_requested_list a v.include_sorted,
      contains-diff key j g.exclude_list a,
    )

    view-blocking :
        (j : ℕ)
        → contains key j blocking.include_requested_list
          ≡ (members g.include_requested_list ⊔ (members a ∖ members g.exclude_list)) j
    view-blocking j = ground (
      arith,
      contains-union key j g.include_requested_list fresh v.include_sorted,
      contains-diff key j a g.exclude_list,
    )

    view-narrowing :
        (j : ℕ)
        → (contains key j narrowing.include_requested_list ≡ (members a ∖ members g.exclude_list) j)
          × (contains key j narrowing.exclude_list ≡ (members g.exclude_list ⊓ members a) j)
    view-narrowing j = (
      ground (
        arith,
        contains-union key j (inter key g.include_requested_list a) fresh
            (inter-Ascending key 0 g.include_requested_list a v.include_sorted),
        contains-inter key j g.include_requested_list a v.include_sorted t,
        contains-diff key j a g.exclude_list,
        v.disjoint j,
      ),
      contains-inter key j g.exclude_list a v.exclude_sorted t,
    )

-- The call returns, and its result's router state is `r`.
abbrev pub ReturnsView : Option (GaddrInfo × World) → RouterState → Type 0
ReturnsView o r = (p : GaddrInfo × World) × (o ≡ some p) × (view p.0 ≡ r)

module _ (w : World) (gaddr : ℕ) (a : List Source) (g : GaddrInfo) (v : IsValid g)
    (t : IsSorted key a) (m : g.filter_mode ≡ exclude_mode) where
  -- ALLOW, and IS_IN, which does the same.
  allow-Table :
      view (record g {
        include_requested_list = (mali_sources w gaddr (allowing a g).include_requested_list a).0;
        exclude_list = (allowing a g).exclude_list;
      })
      ≡ exclude_row allow_new_sources (members a) (view g)
  allow-Table =
      RouterState-eq _ _ refl
        (λ j.
          contains-mali_sources w gaddr j (allowing a g).include_requested_list a
          ∙ (view-allowing a g v t j).0)
        (λ j. (view-allowing a g v t j).1)

  is_ex-Table :
      let a' =
        (mali_sources w gaddr a
          (diff key (diff key a g.include_requested_list) g.exclude_list)).0 in
      view (narrowing a' g) ≡ exclude_row mode_is_exclude (members a) (view g)
  is_ex-Table =
      let newcomers = diff key (diff key a g.include_requested_list) g.exclude_list in
      let a' = (mali_sources w gaddr a newcomers).0 in
      let s = mali_sources-IsSorted w gaddr a newcomers t in
      RouterState-eq _ _ refl
        (λ j.
          (view-narrowing a' g v s j).0
          ∙ ap (λ b. b && not (contains key j g.exclude_list))
              (contains-mali_sources w gaddr j a newcomers))
        (λ j.
          (view-narrowing a' g v s j).1
          ∙ ap (λ b. contains key j g.exclude_list && b)
              (contains-mali_sources w gaddr j a newcomers))

  to_in-Table :
      ReturnsView
        (receive_record_in_exclude_mode w change_to_include_mode gaddr a g)
        (exclude_row change_to_include_mode (members a) (view g))
  unfolding receive_record_in_exclude_mode
  to_in-Table =
      let left = diff key (allowing a g).include_requested_list a in
      let q = send_q_sources w gaddr (allowing a g) left false in
      let fr = send_q_sources-Frame w gaddr (allowing a g) left false in
      let (p, sent, kept) =
        send_q_group_defined q.1 gaddr q.0 (inl (rw fr.same_filter_timer (v.filter_timed m))) in
      let x = (mali_sources p.1 gaddr p.0.include_requested_list a).0 in
      (
        notify gaddr (
          record (p.0) { include_requested_list = x },
          (mali_sources p.1 gaddr p.0.include_requested_list a).1,
        ),
        rw (sent, receive_record_in_exclude_mode),
        RouterState-eq _ _ (kept.kept_mode ∙ fr.same_mode)
            (λ j.
              contains-mali_sources p.1 gaddr j p.0.include_requested_list a
              ∙ ap (contains key j) kept.kept_include
              ∙ contains-send_q_sources w gaddr j (allowing a g) left false
              ∙ (view-allowing a g v t j).0)
            (λ j.
              ap (contains key j) (kept.kept_exclude ∙ fr.same_exclude)
              ∙ (view-allowing a g v t j).1),
      )

  pub exclude-Table :
      (type : RecordType)
      → ReturnsView
          (receive_record_in_exclude_mode w type gaddr a g)
          (exclude_row type (members a) (view g))
  unfolding receive_record_in_exclude_mode mali_group
  exclude-Table allow_new_sources = (_, refl, allow-Table)
  exclude-Table mode_is_include = (_, refl, allow-Table)
  exclude-Table mode_is_exclude = (_, refl, is_ex-Table)
  exclude-Table block_old_sources = (
    _,
    refl,
    view-send_q_sources w gaddr (blocking a g) (fresh a g) false
        ∙ RouterState-eq (view (blocking a g)) _ refl (view-blocking a g v t) (λ j. refl),
  )
  exclude-Table change_to_exclude_mode = (
    _,
    refl,
    view-send_q_sources w gaddr (narrowing a g) (narrowing a g).include_requested_list false
        ∙ RouterState-eq (view (narrowing a g)) _ refl (λ j. (view-narrowing a g v t j).0)
            (λ j. (view-narrowing a g v t j).1),
  )
  exclude-Table change_to_include_mode = to_in-Table
  exclude-Table (unknown_record n) = (_, refl, refl)
