-- ===== src/World.antt =====
-- What a querier shares with its surroundings: the clock, the heap from which timer messages come,
-- and the calls that it makes of the timing module, of the sockets and of the routing callback
-- (mcproxy/include/proxy/querier.hpp, mcproxy/src/proxy/timing.cpp: `add_time`).
use mcproxy.Base.{ℕ, suc, ◌+◌, Bool, false, List, ◌∷◌}
use mcproxy.Protocol.{McFilter}
use mcproxy.TimersValues.{TimersValues}
use mcproxy.Message.{TimerType, TimerMsg}

pub data Action : Type 0 where
  -- `m_timing->add_time(delay, m_msg_worker, msg)`
  adds_time : ℕ → TimerMsg → Action
  -- a query packet: group (0 for a general query), suppress flag, sources
  send_query : ℕ → Bool → List ℕ → Action
  -- `m_sender->send_record(if_index, filter_mode, gaddr, {})` for a group of the routers
  send_record : McFilter → ℕ → Action
  -- `m_cb_state_change(if_index, gaddr)`
  state_change : ℕ → Action

-- The newest action stands first.
pub record World : Type 0 where
  pub if_index : ℕ
  pub timers_values : TimersValues
  pub now : ℕ
  pub next_id : ℕ
  pub actions : List Action

unfoldable pub emit : World → Action → World
emit w a = record w { actions = a ∷ w.actions }

-- `std::make_shared<…_msg>(m_if_index, gaddr, duration)`
unfoldable pub make_timer : World → TimerType → ℕ → ℕ → TimerMsg × World
make_timer w type gaddr duration = (
  record {
    id = w.next_id;
    type = type;
    if_index = w.if_index;
    gaddr = gaddr;
    end_time = w.now + duration;
    is_used_as_source_timer = false;
  },
  record w { next_id = suc w.next_id },
)

-- A timer message that is handed to the timing module as soon as it is made.
unfoldable pub start_timer : World → TimerType → ℕ → ℕ → TimerMsg × World
unfolding make_timer emit
start_timer w type gaddr duration =
    let (t, w') = make_timer w type gaddr duration in (t, emit w' (adds_time duration t))
