-- ===== src/Querier/IncludeTable.antt =====
-- `receive_record_in_include_mode` of mcproxy/src/proxy/querier.cpp against the router state table.
use mcproxy.Base.{ℕ, ◌≡◌, refl, ap, ◌∙◌, false, List, arith}
use mcproxy.SourceList.{contains, union, inter, diff, IsSorted}
use mcproxy.SourceList.Members.{contains-union, contains-inter, contains-diff}
use mcproxy.Protocol.{
  RecordType, include_mode, exclude_mode, mode_is_include, mode_is_exclude, change_to_include_mode,
  change_to_exclude_mode, allow_new_sources, block_old_sources, unknown_record,
}
use mcproxy.Message.{key, Source}
use mcproxy.Membership.{GaddrInfo}
use mcproxy.World.{World}
use mcproxy.Querier.Actions.{mali_group, send_q_sources}
use mcproxy.Querier.Effects.{contains-mali_sources, send_q_sources-Frame, contains-send_q_sources}
use mcproxy.Querier.Records.{receive_record_in_include_mode}
use mcproxy.Querier.Views.{view-send_q_sources}
use mcproxy.Querier.Table.{◌⊔◌, ◌⊓◌, ◌∖◌, include_row, members, view, RouterState-eq}

module _ (b : List Source) (g : GaddrInfo) where
  -- The entry after `A *= B; Y = B - A`, before the timers are set.
  abbrev pub excluding : GaddrInfo
  excluding = record g {
    filter_mode = exclude_mode;
    include_requested_list = inter key g.include_requested_list b;
    exclude_list = diff key b (inter key g.include_requested_list b);
  }

  -- The entry after `A += B`.
  abbrev pub including : GaddrInfo
  including = record g { include_requested_list = union key g.include_requested_list b }

module _ (w : World) (gaddr : ℕ) (b : List Source) (g : GaddrInfo)
    (s : IsSorted key g.include_requested_list) (t : IsSorted key b) where
  included_union :
      (j : ℕ)
      → contains key j (union key g.include_requested_list b)
        ≡ (members g.include_requested_list ⊔ members b) j
  included_union j = contains-union key j g.include_requested_list b s

  included_inter :
      (j : ℕ)
      → contains key j (inter key g.include_requested_list b)
        ≡ (members g.include_requested_list ⊓ members b) j
  included_inter j = contains-inter key j g.include_requested_list b s t

  excluded_diff :
      (j : ℕ)
      → contains key j (diff key b (inter key g.include_requested_list b))
        ≡ (members b ∖ members g.include_requested_list) j
  excluded_diff j =
      ground (arith, contains-diff key j b (inter key g.include_requested_list b), included_inter j)

  pub include-Table :
      (type : RecordType)
      → g.filter_mode ≡ include_mode
      → view (receive_record_in_include_mode w type gaddr b g).0
        ≡ include_row type (members b) (view g)
  unfolding receive_record_in_include_mode mali_group
  include-Table allow_new_sources m =
      RouterState-eq _ _ refl
        (λ j.
          contains-mali_sources w gaddr j (union key g.include_requested_list b) b
          ∙ included_union j)
        (λ j. refl)
  include-Table mode_is_include m =
      RouterState-eq _ _ refl
        (λ j.
          contains-mali_sources w gaddr j (union key g.include_requested_list b) b
          ∙ included_union j)
        (λ j. refl)
  include-Table mode_is_exclude m = RouterState-eq _ _ refl included_inter excluded_diff
  include-Table block_old_sources m =
      view-send_q_sources w gaddr g (inter key g.include_requested_list b) false
  include-Table change_to_exclude_mode m =
      view-send_q_sources w gaddr (excluding b g)
        (inter key (inter key g.include_requested_list b) b) false
      ∙ RouterState-eq (view (excluding b g)) _ refl included_inter excluded_diff
  include-Table change_to_include_mode m =
      let left = diff key (union key g.include_requested_list b) b in
      let q = send_q_sources w gaddr (including b g) left false in
      let fr = send_q_sources-Frame w gaddr (including b g) left false in
      RouterState-eq _ _ fr.same_mode
        (λ j.
          contains-mali_sources q.1 gaddr j q.0.include_requested_list b
          ∙ contains-send_q_sources w gaddr j (including b g) left false
          ∙ included_union j)
        (λ j. ap (contains key j) fr.same_exclude)
  include-Table (unknown_record n) m = refl
