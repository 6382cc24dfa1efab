-- ===== src/Querier/Effects.antt =====
-- What `mali` and `send_Q` of mcproxy/src/proxy/querier.cpp change in a group's entry, and what they
-- leave alone.
use mathlib.Core.Option
use mcproxy.Base.{ℕ, ◌≡◌, inl, inr, Bool, ◌||◌, some, List, map, arith, if◌then◌else◌, Bool-cases}
use mcproxy.SourceList.{find?, contains, IsSorted}
use mcproxy.TimersValues.{get_multicast_address_listening_interval, get_last_listener_query_time}
use mcproxy.Message.{key, TimerMsg, Source, source_timer_msg}
use mcproxy.Membership.{GaddrInfo}
use mcproxy.World.{make_timer, World}
use mcproxy.Sender.{send_mc_addr_and_src_specific_query}
use mcproxy.Querier.Actions.{
  refresh, mali_list, mali_sources, arm_sources, query_sources, send_q_sources,
}
use mcproxy.Querier.Sources.{
  find?-map-refresh, map-refresh-Ascending, find?-copy_timers, copy_timers-Ascending,
  find?-arm_sources, arm_sources-Ascending, count_down, slist-split_sources, find?-map-count_down,
  map-count_down-Ascending,
}

-- The source timer that `mali` makes.
abbrev pub mali_timer : World → ℕ → TimerMsg
mali_timer w gaddr =
    (make_timer w source_timer_msg gaddr
      (get_multicast_address_listening_interval w.timers_values)).0

-- The source timer that `send_Q` makes.
abbrev pub query_timer : World → ℕ → TimerMsg
query_timer w gaddr =
    (make_timer w source_timer_msg gaddr (get_last_listener_query_time w.timers_values)).0

-- What an entry keeps under `send_Q` for sources.
pub record Frame (g h : GaddrInfo) : Type 0 where
  pub same_mode : h.filter_mode ≡ g.filter_mode
  pub same_filter_timer : h.shared_filter_timer ≡ g.shared_filter_timer
  pub same_compatibility : h.compatibility_mode_variable ≡ g.compatibility_mode_variable
  pub same_older_host : h.older_host_present_timer ≡ g.older_host_present_timer
  pub same_group_timer : h.group_retransmission_timer ≡ g.group_retransmission_timer
  pub same_group_count : h.group_retransmission_count ≡ g.group_retransmission_count
  pub same_exclude : h.exclude_list ≡ g.exclude_list

query_sources-Frame : (w : World) (gaddr : ℕ) (g : GaddrInfo) → Frame g (query_sources w gaddr g).0
unfolding query_sources
query_sources-Frame w gaddr g = ground arith

include-query_sources :
    (w : World) (gaddr : ℕ) (g : GaddrInfo)
    → (query_sources w gaddr g).0.include_requested_list ≡ map count_down g.include_requested_list
unfolding query_sources send_mc_addr_and_src_specific_query
include-query_sources w gaddr g =
    ground (arith, slist-split_sources w.timers_values w.now g.include_requested_list)

module _ (w : World) (gaddr : ℕ) where
  pub find?-mali_list :
      (j : ℕ) (l : List Source)
      → find? key j (mali_list w gaddr l).0
        ≡ Option.map (refresh (some (mali_timer w gaddr))) (find? key j l)
  unfolding mali_list
  find?-mali_list j l = find?-map-refresh j (some (mali_timer w gaddr)) l

  pub mali_list-IsSorted : (l : List Source) → IsSorted key l → IsSorted key (mali_list w gaddr l).0
  unfolding mali_list
  mali_list-IsSorted l h = map-refresh-Ascending 0 (some (mali_timer w gaddr)) l h

  pub find?-mali_sources :
      (j : ℕ) (l tmp : List Source)
      → find? key j (mali_sources w gaddr l tmp).0 ≡ (
          if contains key j tmp
          then Option.map (refresh (some (mali_timer w gaddr))) (find? key j l)
          else find? key j l)
  unfolding mali_sources mali_list
  find?-mali_sources j l tmp = find?-copy_timers j (some (mali_timer w gaddr)) tmp l

  pub contains-mali_sources :
      (j : ℕ) (l tmp : List Source)
      → contains key j (mali_sources w gaddr l tmp).0 ≡ contains key j l
  unfolding contains
  contains-mali_sources j l tmp = ground (arith, find?-mali_sources j l tmp)

  pub mali_sources-IsSorted :
      (l tmp : List Source) → IsSorted key l → IsSorted key (mali_sources w gaddr l tmp).0
  unfolding mali_sources
  mali_sources-IsSorted l tmp h = copy_timers-Ascending 0 (mali_list w gaddr tmp).0 l h

  abbrev pub armed : GaddrInfo → List Source → List Source × Bool
  armed g tmp =
      arm_sources (query_timer w gaddr) w.timers_values.last_listener_query_count tmp
        g.include_requested_list

  pub send_q_sources-Frame :
      (g : GaddrInfo) (tmp : List Source) (b : Bool) → Frame g (send_q_sources w gaddr g tmp b).0
  unfolding send_q_sources
  send_q_sources-Frame g tmp b = grind (arith, query_sources-Frame)

  pub include-send_q_sources :
      (g : GaddrInfo) (tmp : List Source) (b : Bool)
      → (send_q_sources w gaddr g tmp b).0.include_requested_list
        ≡ (if (armed g tmp).1 || b then map count_down (armed g tmp).0 else (armed g tmp).0)
  unfolding send_q_sources
  include-send_q_sources g tmp b = grind (arith, include-query_sources)

  pub contains-send_q_sources :
      (j : ℕ) (g : GaddrInfo) (tmp : List Source) (b : Bool)
      → contains key j (send_q_sources w gaddr g tmp b).0.include_requested_list
        ≡ contains key j g.include_requested_list
  unfolding contains
  contains-send_q_sources j g tmp b = ground (
    arith,
    include-send_q_sources g tmp b,
    find?-map-count_down j (armed g tmp).0,
    find?-arm_sources j (query_timer w gaddr) w.timers_values.last_listener_query_count tmp
        g.include_requested_list,
  )

  pub send_q_sources-IsSorted :
      (g : GaddrInfo) (tmp : List Source) (b : Bool)
      → IsSorted key g.include_requested_list
      → IsSorted key (send_q_sources w gaddr g tmp b).0.include_requested_list
  send_q_sources-IsSorted g tmp b h =
      rw (include-send_q_sources g tmp b) (elim (Bool-cases ((armed g tmp).1 || b)) [
        | inl e ↦ rw e (map-count_down-Ascending 0 (armed g tmp).0 sorted)
        | inr e ↦ rw e sorted
      ])
    where
      sorted : IsSorted key (armed g tmp).0
      sorted =
          arm_sources-Ascending 0 (query_timer w gaddr) w.timers_values.last_listener_query_count
            tmp g.include_requested_list h
