-- ===== src/Querier/Retransmission.antt =====
-- How often `send_Q(gaddr, ginfo)` of mcproxy/src/proxy/querier.cpp asks for a group.
use mcproxy.Base.{
  ℕ, zero, suc, ◌+◌, ◌≡◌, refl, sym, subst, ◌∙◌, Bool, true, false, Option, none, some, List, [],
  ◌∷◌, arith, if◌then◌else◌, minus_one, pos,
}
use mcproxy.TimersValues.{get_last_listener_query_time}
use mcproxy.Message.{TimerType, TimerMsg, filter_timer_msg}
use mcproxy.Membership.{GaddrInfo}
use mcproxy.World.{Action, World, adds_time, send_query, send_record, state_change}
use mcproxy.Querier.Actions.{
  lower_filter_timer, schedule_group_retransmission, query_group, send_q_group,
}

abbrev is_filter_timer : TimerType → Bool
is_filter_timer filter_timer_msg = true
is_filter_timer _ = false

abbrev pub queries : List Action → ℕ
queries [] = 0
queries (send_query gaddr s_flag sources ∷ l) = suc (queries l)
queries (adds_time delay t ∷ l) = queries l
queries (send_record m gaddr ∷ l) = queries l
queries (state_change gaddr ∷ l) = queries l

-- How many filter timers were started.
abbrev pub filter_timers : List Action → ℕ
filter_timers [] = 0
filter_timers (adds_time delay t ∷ l) =
    let n = filter_timers l in if is_filter_timer t.type then suc n else n
filter_timers (send_query gaddr s_flag sources ∷ l) = filter_timers l
filter_timers (send_record m gaddr ∷ l) = filter_timers l
filter_timers (state_change gaddr ∷ l) = filter_timers l

-- An entry in the retransmission state, with `k` queries to go.
abbrev pub running : GaddrInfo → TimerMsg → TimerMsg → ℕ → GaddrInfo
running g ft t k = record g {
  shared_filter_timer = some ft;
  group_retransmission_timer = some t;
  group_retransmission_count = pos k;
}

-- An entry outside the retransmission state.
abbrev pub resting : GaddrInfo → GaddrInfo
resting g = record g { group_retransmission_timer = none }

abbrev pub at_clock : ℕ → World → World
at_clock now w = record w { now = now }

-- `n` calls, as the leave and the retransmission timers make them; `clock k` is the time of the call that
-- `k` more follow.
abbrev pub calls : (ℕ → ℕ) → ℕ → ℕ → GaddrInfo × World → Option (GaddrInfo × World)
calls clock zero gaddr p = some p
calls clock (suc n) gaddr (g, w) = elim (send_q_group (at_clock (clock n) w) gaddr g) [
  | none ↦ none
  | some p ↦ calls clock n gaddr p
]

-- What one call in the retransmission state does.
abbrev Round : ℕ → GaddrInfo → TimerMsg → TimerMsg → ℕ → World → Type 0
Round gaddr g ft t k w =
    (t' : TimerMsg) × (w' : World) × (send_q_group w gaddr (running g ft t (suc k))
      ≡ some (running g ft t' k, w'))
    × (queries w'.actions ≡ suc (queries w.actions))
    × (filter_timers w'.actions ≡ filter_timers w.actions)

round : (w : World) (gaddr : ℕ) (g : GaddrInfo) (ft t : TimerMsg) (k : ℕ) → Round gaddr g ft t k w
unfolding send_q_group lower_filter_timer schedule_group_retransmission query_group
round w gaddr g ft t zero = (t, _, refl, refl, refl)
round w gaddr g ft t (suc k) = (_, _, refl, refl, refl)

calls_step :
    (clock : ℕ → ℕ) (n gaddr : ℕ) (g : GaddrInfo) (w : World) (p : GaddrInfo × World)
    → send_q_group (at_clock (clock n) w) gaddr g ≡ some p
    → calls clock (suc n) gaddr (g, w) ≡ calls clock n gaddr p
calls_step clock n gaddr g w p e = rw (e, calls) refl

rounds :
    (clock : ℕ → ℕ) (k : ℕ) (w : World) (gaddr : ℕ) (g : GaddrInfo) (ft t : TimerMsg)
    → (t' : TimerMsg) × (w' : World) × (calls clock k gaddr (running g ft t k, w)
        ≡ some (running g ft t' 0, w'))
      × (queries w'.actions ≡ k + queries w.actions)
      × (filter_timers w'.actions ≡ filter_timers w.actions)
rounds clock zero w gaddr g ft t = (t, w, refl, omega arith, refl)
rounds clock (suc k) w gaddr g ft t =
    let (t1, w1, e1, q1, f1) = round (at_clock (clock k) w) gaddr g ft t k in
    let (t2, w2, e2, q2, f2) = rounds clock k w1 gaddr g ft t1 in
    (t2, w2, calls_step clock k gaddr _ w _ e1 ∙ e2, omega (arith, q1, q2), f2 ∙ f1)

-- What the first call does to an entry outside the retransmission state.
abbrev FirstRound : ℕ → GaddrInfo → ℕ → World → Type 0
FirstRound gaddr g m w =
    (ft t : TimerMsg) × (w' : World) × (send_q_group w gaddr (resting g)
      ≡ some (running g ft t (suc m), w'))
    × (queries w'.actions ≡ suc (queries w.actions))
    × (filter_timers w'.actions ≡ suc (filter_timers w.actions))
    × (ft.end_time ≡ w.now + get_last_listener_query_time w.timers_values)

abbrev counting : World → ℕ → World
counting w n = record w {
  timers_values = record (w.timers_values) { last_listener_query_count = n };
}

counted_round :
    (w : World) (gaddr : ℕ) (g : GaddrInfo) (m : ℕ)
    → FirstRound gaddr g m (counting w (suc (suc m)))
unfolding send_q_group lower_filter_timer schedule_group_retransmission query_group
counted_round w gaddr g m = (_, _, _, refl, refl, refl, refl)

first_round :
    (w : World) (gaddr : ℕ) (g : GaddrInfo) (m : ℕ)
    → w.timers_values.last_listener_query_count ≡ suc (suc m)
    → FirstRound gaddr g m w
first_round w gaddr g m h =
    subst (λ n. FirstRound gaddr g m (counting w n)) (sym h) (counted_round w gaddr g m)

-- Where the last listener query count n is two or more, the call of `send_Q` for a group outside the
-- retransmission state and the n - 1 calls that its retransmission timers make, at whatever times, send n
-- queries and start one filter timer, which the first call sets to the last listener query time from then
-- and the entry has at the end; and no null pointer is read. The entry then still has its last
-- retransmission timer, with a counter of zero, so that the call for the next leave sends no query and
-- lowers no filter timer: it only takes the entry out of the retransmission state.
pub send_q_group_rounds :
    (clock : ℕ → ℕ) (w : World) (gaddr : ℕ) (g : GaddrInfo) (m : ℕ)
    → w.timers_values.last_listener_query_count ≡ suc (suc m)
    → (ft t : TimerMsg) × (w' : World) × (calls clock (suc (suc m)) gaddr (resting g, w)
        ≡ some (running g ft t 0, w'))
      × (queries w'.actions ≡ suc (suc m) + queries w.actions)
      × (filter_timers w'.actions ≡ suc (filter_timers w.actions))
      × (ft.end_time ≡ clock (suc m) + get_last_listener_query_time w.timers_values)
      × ((now : ℕ)
          → send_q_group (at_clock now w') gaddr (running g ft t 0)
            ≡ some (
              record (resting g) {
                shared_filter_timer = some ft;
                group_retransmission_count = minus_one;
              },
              at_clock now w',
            ))
unfolding send_q_group lower_filter_timer
send_q_group_rounds clock w gaddr g m h =
    let (ft, t1, w1, e1, q1, f1, d) = first_round (at_clock (clock (suc m)) w) gaddr g m h in
    let (t2, w2, e2, q2, f2) = rounds clock (suc m) w1 gaddr g ft t1 in
    (
      ft,
      t2,
      w2,
      calls_step clock (suc m) gaddr (resting g) w (running g ft t1 (suc m), w1) e1 ∙ e2,
      omega (arith, q1, q2),
      f2 ∙ f1,
      d,
      λ now. refl,
    )
