-- ===== src/Querier/Elapsed.antt =====
-- `timer_triggerd` of mcproxy/src/proxy/querier.cpp on the whole membership database.
use mcproxy.Base.{
  ℕ, ◌≡◌, refl, sym, ap, ◌∙◌, inl, inr, Bool, true, false, Option, none, some, List, [], arith,
  if◌then◌else◌, Bool-cases,
}
use mcproxy.SourceList.{contains}
use mcproxy.MapOf.{lookup}
use mcproxy.Protocol.{is_newest_version, GroupMemProtocol, exclude_mode}
use mcproxy.Message.{
  points_to, key, TimerType, TimerMsg, Source, filter_timer_msg, source_timer_msg,
  ret_group_timer_msg, ret_source_timer_msg, older_host_present_timer_msg, general_query_timer_msg,
}
use mcproxy.Membership.{GaddrInfo}
use mcproxy.World.{World}
use mcproxy.Querier.Actions.{send_q_sources}
use mcproxy.Querier.Records.{find_or_insert, store, Querier}
use mcproxy.Querier.Expiry.{
  send_general_query, leave_exclude_mode, timer_triggerd_filter_timer,
  timer_triggerd_ret_group_timer, timer_triggerd_ret_source_timer,
  timer_triggerd_general_query_timer, timer_triggerd_older_host_present_timer, group_timer_triggerd,
}
use mcproxy.Querier.Effects.{send_q_sources-Frame}
use mcproxy.Querier.Table.{view, RouterState-eq, RouterState}
use mcproxy.Querier.Invariant.{IsValid}
use mcproxy.Querier.Views.{view-send_q_sources, send_q_group_defined, GroupFrame}
use mcproxy.Querier.Timed.{send_q_sources_timed}
use mcproxy.Querier.Lists.{AreSets-send_q_sources}
use mcproxy.Querier.Outcomes.{store-Outcome, Returns, Outcome}
use mcproxy.Querier.Expired.{expired}
use mcproxy.Querier.Rows.{
  source_row, filter_row, notify_routing-Outcome, transport_Outcome, unchanged_Outcome,
}
use mcproxy.Querier.Timers.{source_timer-Outcome, filter_timer-Outcome}

-- What a timer of a group does to its router state.
abbrev pub timer_row : TimerType → TimerMsg → GaddrInfo → RouterState
timer_row filter_timer_msg msg g =
    if points_to g.shared_filter_timer msg then filter_row (view g) else view g
timer_row source_timer_msg msg g = source_row (expired msg g.include_requested_list) (view g)
timer_row ret_group_timer_msg msg g = view g
timer_row ret_source_timer_msg msg g = view g
timer_row older_host_present_timer_msg msg g = view g
timer_row general_query_timer_msg msg g = view g

-- A group's retransmission timer finds the group in exclude mode.
abbrev pub IsDue : TimerType → GaddrInfo → Type 0
IsDue ret_group_timer_msg g = g.filter_mode ≡ exclude_mode
IsDue _ g = Unit {0}

db_Outcome :
    (q q' : Querier) (gaddr : ℕ) (r : RouterState)
    → q'.db.group_info ≡ q.db.group_info
    → q'.db.querier_version_mode ≡ q.db.querier_version_mode
    → Outcome q q gaddr r
    → Outcome q q' gaddr r
unfolding find_or_insert
db_Outcome q q' gaddr r e m o = record {
  reached = rw (e, m) o.reached;
  others = λ k h. ap (lookup k) e;
  entry_valid = λ g f. o.entry_valid g (ap (lookup gaddr) (sym e) ∙ f);
}

general_query-Outcome :
    (q : Querier) (msg : TimerMsg) (gaddr : ℕ) (r : RouterState)
    → Outcome q q gaddr r
    → Outcome q (timer_triggerd_general_query_timer q msg) gaddr r
unfolding timer_triggerd_general_query_timer send_general_query
general_query-Outcome q msg gaddr r o = elim (Bool-cases (points_to q.db.general_query_timer msg)) [
  | inl e ↦ rw e (db_Outcome q (send_general_query q) gaddr r refl refl o)
  | inr e ↦ rw e o
]

GroupFrame-view : (g h : GaddrInfo) → GroupFrame g h → view h ≡ view g
GroupFrame-view g h k =
    RouterState-eq (view h) (view g) k.kept_mode (λ j. ap (contains key j) k.kept_include)
      (λ j. ap (contains key j) k.kept_exclude)

GroupFrame-IsValid : (g h : GaddrInfo) → GroupFrame g h → IsValid g → IsValid h
GroupFrame-IsValid g h k v = record {
  sets = rw (k.kept_include, k.kept_exclude) v.sets;
  timed = rw k.kept_include v.timed;
  filter_timed = λ e. k.kept_filter_timer (v.filter_timed (sym k.kept_mode ∙ e));
  none_excluded = λ e. k.kept_exclude ∙ v.none_excluded (sym k.kept_mode ∙ e);
}

send_q_sources-IsValid :
    (w : World) (gaddr : ℕ) (g : GaddrInfo) (tmp : List Source) (b : Bool)
    → IsValid g
    → IsValid (send_q_sources w gaddr g tmp b).0
send_q_sources-IsValid w gaddr g tmp b v =
    let fr = send_q_sources-Frame w gaddr g tmp b in
    record {
      sets = rw fr.same_exclude (AreSets-send_q_sources w gaddr g tmp b v.sets);
      timed = λ j. send_q_sources_timed w gaddr g tmp b j (inl (v.timed j));
      filter_timed = λ e. rw fr.same_filter_timer (v.filter_timed (sym fr.same_mode ∙ e));
      none_excluded = λ e. fr.same_exclude ∙ v.none_excluded (sym fr.same_mode ∙ e);
    }

module _ (q : Querier) (msg : TimerMsg) (g : GaddrInfo) (v : IsValid g)
    (e : lookup msg.gaddr q.db.group_info ≡ some g) where
  same : Outcome q q msg.gaddr (view g)
  same = unchanged_Outcome q msg.gaddr g v e

  filter_defined :
      msg.is_used_as_source_timer ≡ false
      → timer_triggerd_filter_timer q msg.gaddr g msg
        ≡ some (if points_to g.shared_filter_timer msg then leave_exclude_mode q msg.gaddr g else q)
  unfolding timer_triggerd_filter_timer
  filter_defined u = ground arith

  filter-Returns :
      msg.is_used_as_source_timer ≡ false
      → Returns q
          (timer_triggerd_filter_timer q msg.gaddr g msg)
          msg.gaddr
          (timer_row filter_timer_msg msg g)
  filter-Returns u = elim (Bool-cases (points_to g.shared_filter_timer msg)) [
    | inl h ↦ (
      leave_exclude_mode q msg.gaddr g,
      filter_defined u ∙ rw h refl,
      rw h (filter_timer-Outcome q msg.gaddr g v e),
    )
    | inr h ↦ (q, filter_defined u ∙ rw h refl, rw h same)
  ]

  ret_group-Returns :
      g.filter_mode ≡ exclude_mode
      → Returns q (timer_triggerd_ret_group_timer q msg.gaddr g msg) msg.gaddr (view g)
  unfolding timer_triggerd_ret_group_timer
  ret_group-Returns m = elim (Bool-cases (points_to g.group_retransmission_timer msg)) [
    | inl h ↦
        let (p, sent, kept) = send_q_group_defined q.world msg.gaddr g (inl (v.filter_timed m)) in
        rw (h, sent)
          (
            store q msg.gaddr p,
            refl,
            transport_Outcome q _ _ msg.gaddr refl (GroupFrame-view g p.0 kept)
                (store-Outcome q msg.gaddr p.0 p.1 (GroupFrame-IsValid g p.0 kept v)),
          )
    | inr h ↦ rw h (q, refl, same)
  ]

  ret_source-Outcome :
      Outcome q (timer_triggerd_ret_source_timer q msg.gaddr g msg) msg.gaddr (view g)
  unfolding timer_triggerd_ret_source_timer
  ret_source-Outcome = elim (Bool-cases (points_to g.source_retransmission_timer msg)) [
    | inl h ↦
        let p = send_q_sources q.world msg.gaddr g [] true in
        rw h (
          transport_Outcome q _ _ msg.gaddr refl (view-send_q_sources q.world msg.gaddr g [] true) (
            store-Outcome q msg.gaddr p.0 p.1
              (send_q_sources-IsValid q.world msg.gaddr g [] true v)))
    | inr h ↦ rw h same
  ]

  -- The timer of an older host concerns neither the sources nor their timers.
  older_host_stored :
      (mode : GroupMemProtocol) (t : Option TimerMsg) (w : World)
      → let h = record g { compatibility_mode_variable = mode; older_host_present_timer = t } in
        Outcome q (store q msg.gaddr (h, w)) msg.gaddr (view g)
  older_host_stored mode t w =
      store-Outcome q msg.gaddr
        (record g { compatibility_mode_variable = mode; older_host_present_timer = t }) w
        (record {
          sets = v.sets;
          timed = v.timed;
          filter_timed = v.filter_timed;
          none_excluded = v.none_excluded;
        })

  older_host-Outcome :
      Outcome q (timer_triggerd_older_host_present_timer q msg.gaddr g msg) msg.gaddr (view g)
  unfolding timer_triggerd_older_host_present_timer
  older_host-Outcome = elim (Bool-cases (points_to g.older_host_present_timer msg)) [
    | inr h ↦ rw h same
    | inl h ↦ rw h elim (Bool-cases (is_newest_version g.compatibility_mode_variable)) [
      | inl n ↦ rw n (
          notify_routing-Outcome q _ msg.gaddr (view g)
            (older_host_stored g.compatibility_mode_variable none q.world))
      | inr n ↦ rw n (older_host_stored _ _ _)
    ]
  ]

  pub group_timer-Returns :
      (type : TimerType)
      → msg.is_used_as_source_timer ≡ false
      → IsDue type g
      → Returns q (group_timer_triggerd q g msg type) msg.gaddr (timer_row type msg g)
  unfolding group_timer_triggerd
  group_timer-Returns filter_timer_msg u d = filter-Returns u
  group_timer-Returns source_timer_msg u d = (_, refl, source_timer-Outcome q msg.gaddr g v msg)
  group_timer-Returns ret_group_timer_msg u d = ret_group-Returns d
  group_timer-Returns ret_source_timer_msg u d = (_, refl, ret_source-Outcome)
  group_timer-Returns older_host_present_timer_msg u d = (_, refl, older_host-Outcome)
  group_timer-Returns general_query_timer_msg u d =
      (_, refl, general_query-Outcome q msg msg.gaddr (view g) same)
