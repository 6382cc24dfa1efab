-- ===== src/Receiver.antt =====
-- mcproxy/src/proxy/receiver.cpp, mcproxy/src/proxy/igmp_receiver.cpp and
-- mcproxy/src/proxy/mld_receiver.cpp: the interfaces that a receiver listens to, and the messages that
-- it makes of the packets. Igmp and Mld are the two receivers.
pub mod Igmp
pub mod Mld
pub mod Report
pub mod Packets
pub mod Registered
pub mod Overrun
use mcproxy.Base.{ℕ, zero, suc, ◌*◌, Bool, Option, some, List, [], ◌∷◌, ◌==◌, if◌then◌else◌}
use mcproxy.SourceList.{insert, erase, contains}
use mcproxy.Protocol.{
  GroupMemProtocol, RecordType, mode_is_include, mode_is_exclude, change_to_include_mode,
  change_to_exclude_mode, allow_new_sources, block_old_sources, unknown_record,
}
use mcproxy.TimersValues.{TimersValues}
use mcproxy.Message.{key, new_source, Source, GroupRecord}
use mcproxy.World.{World}
use mcproxy.Querier.Records.{Querier}
use mcproxy.Querier.Invariant.{Timed}
use mcproxy.MessageQueue.{MessageQueue}
use mcproxy.Text.{Text}
use mcproxy.Addr.{Addr}
use mcproxy.Addr.Value.{size}
use mcproxy.Rules.{Table}
use mcproxy.Interface.{Interface}
use mcproxy.Token.{Token}
use mcproxy.Parser.{Parser}
use mcproxy.Configuration.{Configuration}
use mcproxy.Buffer.{◌>>=◌, skip, advance, read_number}

-- `m_interfaces`, as far as the receivers ask it: the interface of a virtual interface, and the one of
-- a sender's address; zero where there is none. `m_relevant_if_index` is a set.
pub record Receiver : Type 0 where
  pub get_if_index_of_vif : ℕ → ℕ
  pub get_if_index_of_addr : ℕ → ℕ
  pub relevant_if_index : List ℕ

unfoldable pub is_if_index_relevant : Receiver → ℕ → Bool
is_if_index_relevant r i = contains (λ j. j) i r.relevant_if_index

unfoldable pub registrate_interface : Receiver → ℕ → Receiver
registrate_interface r i = record r { relevant_if_index = insert (λ j. j) i r.relevant_if_index }

-- `del_interface`
unfoldable pub del_relevant_interface : Receiver → ℕ → Receiver
del_relevant_interface r i = record r { relevant_if_index = erase (λ j. j) i r.relevant_if_index }

-- The messages that a receiver adds to its proxy instance, with the interface index.
pub data ReceivedMsg : Type 0 where
  -- `new_source_msg`: group and source
  new_source_msg : ℕ → ℕ → ℕ → ReceivedMsg
  group_record_msg : ℕ → GroupRecord → ReceivedMsg

-- `static_cast<mcast_addr_record_type>`
unfoldable pub record_type_of : ℕ → RecordType
record_type_of n =
    if n == 1
    then mode_is_include
    else if n == 2
    then mode_is_exclude
    else if n == 3
    then change_to_include_mode
    else if n == 4
    then change_to_exclude_mode
    else if n == 5
    then allow_new_sources
    else if n == 6
    then block_old_sources
    else unknown_record n

-- The loop over the sources of a record, and the buffer behind them.
unfoldable pub read_sources : ℕ → ℕ → List Source → List ℕ → Option (List Source × List ℕ)
read_sources size zero slist buf = some (slist, buf)
read_sources size (suc n) slist buf = do
  (a, buf') ← read_number size buf
  read_sources size n (insert key (new_source a) slist) buf'

-- One record, and the buffer behind its auxiliary data, which are not read.
unfoldable pub read_record : ℕ → GroupMemProtocol → List ℕ → Option (GroupRecord × List ℕ)
read_record size proto buf = do
  (type, b1) ← read_number 1 buf
  (aux_data_len, b2) ← read_number 1 b1
  (nos, b3) ← read_number 2 b2
  (gaddr, b4) ← read_number size b3
  (slist, b5) ← read_sources size nos [] b4
  some (
    record {
      record_type = record_type_of type;
      gaddr = gaddr;
      slist = slist;
      grp_mem_proto = proto;
    },
    advance (aux_data_len * 4) b5,
  )

-- The loop over the records of a report.
unfoldable pub read_records : ℕ → GroupMemProtocol → ℕ → ℕ → List ℕ → Option (List ReceivedMsg)
read_records size proto if_index zero buf = some []
read_records size proto if_index (suc n) buf = do
  (r, buf') ← read_record size proto buf
  msgs ← read_records size proto if_index n buf'
  some (group_record_msg if_index r ∷ msgs)

-- A report with records, from its first byte on: the number of records stands in its last two bytes.
unfoldable pub read_report : ℕ → GroupMemProtocol → ℕ → List ℕ → Option (List ReceivedMsg)
read_report size proto if_index buf = do
  b ← skip 6 buf
  (num_records, records) ← read_number 2 b
  read_records size proto if_index num_records records
