-- ===== src/Querier/Timed.antt =====
-- Which sources have a timer after the actions of mcproxy/src/proxy/querier.cpp.
use mathlib.Core.Option
use mcproxy.Base.{
  ℕ, ◌≡◌, refl, ◌⊎◌, inl, inr, Bool, true, ◌||◌, Option, none, some, List, arith, Bool-cases,
}
use mcproxy.SourceList.{find?, contains, inter, diff, IsSorted}
use mcproxy.SourceList.Laws.{find?-diff, find?-inter}
use mcproxy.Message.{key, TimerMsg, Source}
use mcproxy.Membership.{GaddrInfo}
use mcproxy.World.{World}
use mcproxy.Querier.Actions.{refresh, mali_sources, arm, send_q_sources}
use mcproxy.Querier.Sources.{find?-arm_sources, count_down, find?-map-count_down}
use mcproxy.Querier.Effects.{
  mali_timer, query_timer, find?-mali_sources, armed, include-send_q_sources,
}
use mcproxy.Querier.Invariant.{HasTimer, HasNoTimer, Timed, Untimed, IsUntouched, IsFresh}

refreshed-HasTimer : (t : TimerMsg) (o : Option Source) → HasTimer (Option.map (refresh (some t)) o)
refreshed-HasTimer t none = tt
refreshed-HasTimer t (some s) = refl

counted-HasTimer : (o : Option Source) → HasTimer o → HasTimer (Option.map count_down o)
counted-HasTimer none h = tt
counted-HasTimer (some s) h = ground arith

armed-HasTimer :
    (t : TimerMsg) (n : ℕ) (o : Option Source) → HasTimer o → HasTimer (Option.map (arm t n) o)
armed-HasTimer t n none h = tt
armed-HasTimer t n (some s) h = ground arith

-- Arming gives a timer to a source that is not in retransmission.
armed_untouched :
    (t : TimerMsg) (n : ℕ) (o : Option Source) → IsUntouched o → HasTimer (Option.map (arm t n) o)
armed_untouched t n none h = tt
armed_untouched t n (some s) h = ground arith

module _ (w : World) (gaddr : ℕ) where
  -- `mali` gives a timer to each source of its list.
  pub Timed-mali_sources :
      (l b : List Source)
      → ((j : ℕ) → HasTimer (find? key j l) ⊎ (contains key j b ≡ true))
      → Timed (mali_sources w gaddr l b).0
  Timed-mali_sources l b h j = ground (
    arith,
    find?-mali_sources w gaddr j l b,
    refreshed-HasTimer (mali_timer w gaddr) (find? key j l),
    h j,
  )

  armed_timed :
      (g : GaddrInfo) (tmp : List Source) (j : ℕ)
      → (HasTimer (find? key j g.include_requested_list)
          ⊎ (IsUntouched (find? key j g.include_requested_list) × (contains key j tmp ≡ true)))
      → HasTimer (find? key j (armed w gaddr g tmp).0)
  armed_timed g tmp j h =
      let n = w.timers_values.last_listener_query_count in
      let o = find? key j g.include_requested_list in
      ground (
        arith,
        find?-arm_sources j (query_timer w gaddr) n tmp g.include_requested_list,
        armed-HasTimer (query_timer w gaddr) n o,
        armed_untouched (query_timer w gaddr) n o,
      )

  -- `send_Q` gives a timer to each source of its list that had none and was not in retransmission.
  pub send_q_sources_timed :
      (g : GaddrInfo) (tmp : List Source) (b : Bool) (j : ℕ)
      → (HasTimer (find? key j g.include_requested_list)
          ⊎ (IsUntouched (find? key j g.include_requested_list) × (contains key j tmp ≡ true)))
      → HasTimer (find? key j (send_q_sources w gaddr g tmp b).0.include_requested_list)
  send_q_sources_timed g tmp b j h =
      let l = (armed w gaddr g tmp).0 in
      rw (include-send_q_sources w gaddr g tmp b)
        (elim (Bool-cases ((armed w gaddr g tmp).1 || b)) [
          | inl e ↦
              rw (e, find?-map-count_down j l)
                (counted-HasTimer (find? key j l) (armed_timed g tmp j h))
          | inr e ↦ rw e (armed_timed g tmp j h)
        ])

pub Timed-inter :
    (l r : List Source) → IsSorted key l → IsSorted key r → Timed l → Timed (inter key l r)
Timed-inter l r s t h j = ground (arith, find?-inter key j 0 0 l r s t, h j)

pub Untimed-inter :
    (l r : List Source) → IsSorted key l → IsSorted key r → Untimed l → Untimed (inter key l r)
Untimed-inter l r s t h j = ground (arith, find?-inter key j 0 0 l r s t, h j)

pub Untimed-diff : (l r : List Source) → Untimed l → Untimed (diff key l r)
Untimed-diff l r h j = ground (arith, find?-diff key j l r, h j)

pub Untimed-fresh : (l : List Source) → IsFresh l → Untimed l
Untimed-fresh l f j = go (find? key j l) (f.untouched j)
  where
    go : (o : Option Source) → IsUntouched o → HasNoTimer o
    go none h = tt
    go (some s) h = h.0
