-- ===== src/Querier/TimerEvents.antt =====
-- The handler of timers, `timer_triggerd` of mcproxy/src/proxy/querier.cpp, branch by branch.
use mcproxy.Base.{
  ℕ, ◌≡◌, refl, ◌∙◌, ◌≢◌, inl, inr, Bool, true, false, none, some, arith, Bool-cases, Option-cases,
}
use mcproxy.MapOf.{lookup}
use mcproxy.Message.{points_to, TimerMsg}
use mcproxy.Membership.{GaddrInfo}
use mcproxy.Querier.Records.{Querier}
use mcproxy.Querier.Expiry.{
  send_general_query, timer_triggerd_general_query_timer, group_timer_triggerd, is_general,
  timer_triggerd,
}
use mcproxy.Querier.Outcomes.{IsValidDb, state_of}
use mcproxy.Querier.Reports.{Outcome-IsValidDb}
use mcproxy.Querier.Elapsed.{timer_row, IsDue, group_timer-Returns}

by_group :
    (q : Querier) (msg : TimerMsg) (g : GaddrInfo)
    → lookup msg.gaddr q.db.group_info ≡ some g
    → is_general msg.type ≡ false
    → timer_triggerd false q msg ≡ group_timer_triggerd q g msg msg.type
unfolding timer_triggerd
by_group q msg g e n = ground arith

by_nobody :
    (q : Querier) (msg : TimerMsg)
    → lookup msg.gaddr q.db.group_info ≡ none
    → is_general msg.type ≡ false
    → timer_triggerd false q msg ≡ some q
unfolding timer_triggerd
by_nobody q msg e n = ground arith

general :
    (q : Querier) (msg : TimerMsg)
    → is_general msg.type ≡ true
    → timer_triggerd false q msg ≡ some (timer_triggerd_general_query_timer q msg)
unfolding timer_triggerd
general q msg n = ground arith

general-IsValidDb :
    (q : Querier) (msg : TimerMsg)
    → IsValidDb q.db
    → IsValidDb (timer_triggerd_general_query_timer q msg).db
unfolding timer_triggerd_general_query_timer send_general_query
general-IsValidDb q msg v = elim (Bool-cases (points_to q.db.general_query_timer msg)) [
  | inl e ↦ rw e v
  | inr e ↦ rw e v
]

-- A timer of a group that has an entry, where the message is still shared and the database is valid.
-- The handler returns: a filter timer that is the entry's own turns EXCLUDE (X, Y) into INCLUDE (X),
-- a source timer takes the sources it belongs to out of the included or requested ones and, in
-- exclude mode, into the excluded ones, and every other timer leaves the router state as it was. No
-- other group's entry changes. The message is not used as a source timer too, and a group's
-- retransmission timer finds the group in exclude mode.
pub timer_triggerd-Table :
    (q : Querier) (msg : TimerMsg) (g : GaddrInfo)
    → IsValidDb q.db
    → lookup msg.gaddr q.db.group_info ≡ some g
    → is_general msg.type ≡ false
    → msg.is_used_as_source_timer ≡ false
    → IsDue msg.type g
    → (q' : Querier) × (timer_triggerd false q msg ≡ some q')
      × (state_of q'.db msg.gaddr ≡ timer_row msg.type msg g)
      × ((k : ℕ) → k ≢ msg.gaddr → lookup k q'.db.group_info ≡ lookup k q.db.group_info)
timer_triggerd-Table q msg g v e n u d =
    let (q', r, o) = group_timer-Returns q msg g (v msg.gaddr g e) e msg.type u d in
    (q', by_group q msg g e n ∙ r, o.reached, o.others)

-- From a database of valid entries the handler of timers reads no null pointer: it returns and
-- leaves every entry valid, whether or not the message is still shared and whatever group it names.
-- The message is not used as a source timer too, and a group's retransmission timer finds the group
-- in exclude mode.
pub timer_triggerd-IsValidDb :
    (unique : Bool) (q : Querier) (msg : TimerMsg)
    → IsValidDb q.db
    → msg.is_used_as_source_timer ≡ false
    → ((g : GaddrInfo) → lookup msg.gaddr q.db.group_info ≡ some g → IsDue msg.type g)
    → (q' : Querier) × (timer_triggerd unique q msg ≡ some q') × IsValidDb q'.db
unfolding timer_triggerd
timer_triggerd-IsValidDb true q msg v u d = (q, refl, v)
timer_triggerd-IsValidDb false q msg v u d = elim (Bool-cases (is_general msg.type)) [
  | inl n ↦ (timer_triggerd_general_query_timer q msg, general q msg n, general-IsValidDb q msg v)
  | inr n ↦ elim (Option-cases (lookup msg.gaddr q.db.group_info)) [
    | inl e ↦ (q, by_nobody q msg e n, v)
    | inr (g, e) ↦
        let (q', r, o) = group_timer-Returns q msg g (v msg.gaddr g e) e msg.type u (d g e) in
        (
          q',
          by_group q msg g e n ∙ r,
          Outcome-IsValidDb q q' msg.gaddr (timer_row msg.type msg g) v o,
        )
  ]
]
