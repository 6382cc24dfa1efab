-- ===== src/Receiver/Mld.antt =====
-- mcproxy/src/proxy/mld_receiver.cpp: `analyse_packet`. The types of messages are those of RFC 3810.
use mcproxy.Base.{ℕ, Bool, not, ◌||◌, Option, none, some, List, [], ◌∷◌, ◌==◌, if◌then◌else◌}
use mcproxy.Protocol.{mldv1, mldv2, mode_is_exclude, change_to_include_mode}
use mcproxy.Buffer.{◌>>=◌, skip, read_number}
use mcproxy.Receiver.{
  is_if_index_relevant, read_report, Receiver, ReceivedMsg, new_source_msg, group_record_msg,
}

-- The buffer, what the system's `struct mrt6msg` reads in it, and the control messages: whether one is
-- `IPV6_PKTINFO`, and then the index of the interface.
pub record MldPacket : Type 0 where
  -- `im6_msgtype` is `MRT6MSG_NOCACHE`.
  pub is_nocache : Bool
  pub im6_mif : ℕ
  pub im6_src : ℕ
  pub im6_dst : ℕ
  pub control : List (Bool × ℕ)
  pub buffer : List ℕ

abbrev pub mld_listener_report : ℕ
mld_listener_report = 131

abbrev pub mld_listener_reduction : ℕ
mld_listener_reduction = 132

abbrev pub mld_v2_listener_report : ℕ
mld_v2_listener_report = 143

-- The loop over the control messages: the last `IPV6_PKTINFO` counts.
unfoldable pub packet_info : Option ℕ → List (Bool × ℕ) → Option ℕ
packet_info info [] = info
packet_info info ((is_pktinfo, i) ∷ l) = packet_info (if is_pktinfo then some i else info) l

unfoldable pub kernel_msg6 : Receiver → MldPacket → List ReceivedMsg
kernel_msg6 r p =
    let i = r.get_if_index_of_vif p.im6_mif in
    if not p.is_nocache || (i == 0) || not (is_if_index_relevant r i)
    then []
    else new_source_msg i p.im6_dst p.im6_src ∷ []

-- A report or a reduction of MLDv1: the address stands behind eight bytes.
unfoldable pub v1_msg : ℕ → ℕ → List ℕ → Option (List ReceivedMsg)
v1_msg type i buf = do
  b ← skip 8 buf
  (gaddr, _) ← read_number 16 b
  some (
      group_record_msg i (record {
        record_type =
            if type == mld_listener_report then mode_is_exclude else change_to_include_mode;
        gaddr = gaddr;
        slist = [];
        grp_mem_proto = mldv1;
      })
      ∷ [])

-- The messages of MLD, with the interface on which they were received.
unfoldable pub mld_msg : Receiver → ℕ → List (Bool × ℕ) → List ℕ → Option (List ReceivedMsg)
mld_msg r type control buf = elim (packet_info none control) [
  | none ↦ some []
  | some i ↦
      if (type == mld_listener_report) || (type == mld_listener_reduction)
      then (if is_if_index_relevant r i then v1_msg type i buf else some [])
      else if type == mld_v2_listener_report
      then (if is_if_index_relevant r i then read_report 16 mldv2 i buf else some [])
      else some []
]

unfoldable pub analyse_mld : Receiver → MldPacket → Option (List ReceivedMsg)
analyse_mld r p = do
  (type, _) ← read_number 1 p.buffer
  if type == 0 then some (kernel_msg6 r p) else mld_msg r type p.control p.buffer
