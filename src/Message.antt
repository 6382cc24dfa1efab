-- ===== src/Message.antt =====
-- mcproxy/include/proxy/message_format.hpp: timer messages, sources and group records.
-- A `shared_ptr` to a timer message is `none` for null, or the message with the number under which
-- it was allocated; two pointers are equal if their numbers are. An address is its number in host
-- byte order: all addresses of a proxy instance are of one family.
use mcproxy.Base.{ℕ, ◌+◌, Bool, false, Option, none, some, List, leb, ◌==◌, minus_one, ℤ}
use mcproxy.Protocol.{GroupMemProtocol, RecordType}

pub data TimerType : Type 0 where
  filter_timer_msg source_timer_msg ret_group_timer_msg ret_source_timer_msg : TimerType
  older_host_present_timer_msg general_query_timer_msg : TimerType

pub record TimerMsg : Type 0 where
  pub id : ℕ
  pub type : TimerType
  pub if_index : ℕ
  pub gaddr : ℕ
  pub end_time : ℕ
  pub is_used_as_source_timer : Bool

-- `p.get() == msg.get()`
unfoldable pub points_to : Option TimerMsg → TimerMsg → Bool
points_to none msg = false
points_to (some t) msg = t.id == msg.id

-- `now + comp_time <= m_end_time`
unfoldable pub is_remaining_time_greater_than : ℕ → TimerMsg → ℕ → Bool
is_remaining_time_greater_than now t comp_time = leb (now + comp_time) t.end_time

pub record Source : Type 0 where
  pub saddr : ℕ
  pub shared_source_timer : Option TimerMsg
  pub retransmission_count : ℤ

-- The key of a `source_list<source>`: sources compare by their addresses.
abbrev pub key : Source → ℕ
key s = s.saddr

-- `source(saddr)`: no timer, not in a retransmission state.
unfoldable pub new_source : ℕ → Source
new_source a = record { saddr = a; shared_source_timer = none; retransmission_count = minus_one }

pub record GroupRecord : Type 0 where
  pub record_type : RecordType
  pub gaddr : ℕ
  pub slist : List Source
  pub grp_mem_proto : GroupMemProtocol
