-- ===== src/Sender.antt =====
-- mcproxy/src/proxy/igmp_sender.cpp and mcproxy/src/proxy/mld_sender.cpp: what the senders decide,
-- with the packets left to the sockets.
pub mod Records
use mcproxy.Base.{
  ℕ, ◌*◌, Bool, true, false, ◌||◌, none, some, List, [], ◌∷◌, map, if◌then◌else◌, is_empty,
  is_positive, dec,
}
use mcproxy.SourceList.{insert}
use mcproxy.Protocol.{McFilter, include_mode, exclude_mode}
use mcproxy.TimersValues.{get_last_listener_query_time, TimersValues}
use mcproxy.Message.{is_remaining_time_greater_than, key, Source}
use mcproxy.World.{emit, World, send_query}

-- The loop's variables in `send_mc_addr_and_src_specific_query`.
pub record QuerySplit : Type 0 where
  pub slist : List Source
  pub slist_higher : List Source
  pub slist_lower : List Source
  pub rc : Bool

-- One round of the loop for a source whose counter is positive.
unfoldable pub query_source : TimersValues → ℕ → Source → QuerySplit → QuerySplit
unfolding is_remaining_time_greater_than
query_source tv now s q =
    let e = record s { retransmission_count = dec s.retransmission_count } in
    let rest = record q { slist = e ∷ q.slist; rc = is_positive e.retransmission_count || q.rc } in
    elim s.shared_source_timer [
      | none ↦ rest
      | some t ↦
          if is_remaining_time_greater_than now t (get_last_listener_query_time tv)
          then record rest { slist_higher = insert key e q.slist_higher }
          else record rest { slist_lower = insert key e q.slist_lower }
    ]

-- The loop: counters fall in place, and the sources are split by what is left of their timers. The
-- rounds may be taken in any order, since each changes a source of its own.
unfoldable pub split_sources : TimersValues → ℕ → List Source → QuerySplit
split_sources tv now [] = record { slist = []; slist_higher = []; slist_lower = []; rc = false }
split_sources tv now (s ∷ l) =
    let q = split_sources tv now l in
    if is_positive s.retransmission_count
    then query_source tv now s q
    else record q { slist = s ∷ q.slist }

abbrev pub addresses : List Source → List ℕ
addresses = map key

-- The sources with their new counters, and whether a counter is still positive.
unfoldable pub send_mc_addr_and_src_specific_query :
    World → ℕ → List Source → List Source × Bool × World
unfolding split_sources query_source emit
send_mc_addr_and_src_specific_query w gaddr slist =
    let q = split_sources w.timers_values w.now slist in
    let w' =
      if is_empty q.slist_higher
      then w
      else emit w (send_query gaddr true (addresses q.slist_higher)) in
    let w'' =
      if is_empty q.slist_lower
      then w'
      else emit w' (send_query gaddr false (addresses q.slist_lower)) in
    (q.slist, q.rc, w'')

-- The calls of the upstream socket, which the sockets answer.
pub data SocketCall : Type 0 where
  leave_group : ℕ → SocketCall
  join_group : ℕ → SocketCall
  set_source_filter : ℕ → McFilter → List ℕ → SocketCall

-- `igmp_sender::send_record`: the calls made, and the value returned where the socket's answer to
-- `set_source_filter` is `answer`.
unfoldable pub igmp_send_record : Bool → McFilter → ℕ → List Source → List SocketCall × Bool
igmp_send_record answer include_mode gaddr [] = (leave_group gaddr ∷ [], true)
igmp_send_record answer filter_mode gaddr slist =
    (join_group gaddr ∷ set_source_filter gaddr filter_mode (addresses slist) ∷ [], answer)

-- `mld_sender::send_record`, whose second test names `EXCLUDE_MODE` twice.
unfoldable pub mld_send_record : Bool → McFilter → ℕ → List Source → List SocketCall × Bool
mld_send_record answer include_mode gaddr [] = (leave_group gaddr ∷ [], true)
mld_send_record answer exclude_mode gaddr slist =
    (join_group gaddr ∷ set_source_filter gaddr exclude_mode (addresses slist) ∷ [], answer)
mld_send_record answer include_mode gaddr (s ∷ l) = ([], false)
