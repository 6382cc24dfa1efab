-- ===== src/Querier/Forward.antt =====
-- mcproxy/src/proxy/querier.cpp: `suggest_to_forward_traffic` and `get_group_membership_infos`, what
-- the routing asks of a querier.
use mcproxy.Base.{ℕ, Bool, true, not, ◌&&◌, none, some, List, [], ◌∷◌, ◌++◌, if◌then◌else◌}
use mcproxy.SourceList.{contains}
use mcproxy.MapOf.{lookup}
use mcproxy.Protocol.{McFilter, include_mode, exclude_mode}
use mcproxy.Message.{key, Source}
use mcproxy.Membership.{is_under_backward_compatibility_effects, GaddrInfo}
use mcproxy.Querier.Records.{Querier}

-- The tests on one source before the interface filter is asked.
unfoldable pub wants_source : GaddrInfo → ℕ → Bool
unfolding is_under_backward_compatibility_effects contains
wants_source g saddr =
    let by_mode : Bool = elim g.filter_mode [
      | include_mode ↦ contains key saddr g.include_requested_list
      | exclude_mode ↦ not (contains key saddr g.exclude_list)
    ] in
    if is_under_backward_compatibility_effects g then true else by_mode

-- A source with the interfaces that it is forwarded to.
abbrev pub ForwardList : Type 0
ForwardList = List (Source × List ℕ)

-- The loop over `rt_slist`: the interface index is pushed behind those that stand there.
unfoldable pub push_interface : (ℕ → Bool) → ℕ → ForwardList → ForwardList
push_interface accepts if_index [] = []
push_interface accepts if_index ((s, out) ∷ rt_slist) =
    (s, if accepts s.saddr then out ++ if_index ∷ [] else out)
    ∷ push_interface accepts if_index rt_slist

unfoldable pub suggest_to_forward_traffic : Querier → ℕ → (ℕ → Bool) → ForwardList → ForwardList
unfolding wants_source push_interface
suggest_to_forward_traffic q gaddr interface_filter_fun rt_slist =
    let suggested : ForwardList = elim (lookup gaddr q.db.group_info) [
      | none ↦ rt_slist
      | some g ↦
          push_interface (λ saddr. wants_source g saddr && interface_filter_fun saddr)
            q.world.if_index rt_slist
    ] in
    if q.db.is_querier then suggested else rt_slist

unfoldable pub get_group_membership_infos : Querier → ℕ → McFilter × List Source
unfolding is_under_backward_compatibility_effects
get_group_membership_infos q gaddr = elim (lookup gaddr q.db.group_info) [
  | none ↦ (include_mode, [])
  | some g ↦
      if is_under_backward_compatibility_effects g then (exclude_mode, []) else elim g.filter_mode [
        | include_mode ↦ (include_mode, g.include_requested_list)
        | exclude_mode ↦ (exclude_mode, g.exclude_list)
      ]
]
