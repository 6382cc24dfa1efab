-- ===== src/Receiver/Igmp.antt =====
-- mcproxy/src/proxy/igmp_receiver.cpp: `analyse_packet`. The types of messages are those of RFC 3376.
use mcproxy.Base.{
  ℕ, ◌+◌, ◌*◌, Bool, not, ◌&&◌, ◌||◌, Option, some, List, [], ◌∷◌, leb, ◌==◌, if◌then◌else◌,
}
use mcproxy.Protocol.{igmpv2, igmpv3, mode_is_exclude, change_to_include_mode}
use mcproxy.Buffer.{◌>>=◌, skip, read_number}
use mcproxy.Receiver.{
  is_if_index_relevant, read_report, Receiver, ReceivedMsg, new_source_msg, group_record_msg,
}

-- The buffer, and what the system's `struct ip` and `struct igmpmsg` read in it.
pub record IgmpPacket : Type 0 where
  pub ip_hl : ℕ
  pub ip_p : ℕ
  pub ip_len : ℕ
  pub ip_src : ℕ
  -- `im_msgtype` is `IGMPMSG_NOCACHE`.
  pub is_nocache : Bool
  pub im_vif : ℕ
  pub im_src : ℕ
  pub im_dst : ℕ
  pub buffer : List ℕ

abbrev pub igmp_v2_membership_report : ℕ
igmp_v2_membership_report = 0x16

abbrev pub igmp_v2_leave_group : ℕ
igmp_v2_leave_group = 0x17

abbrev pub igmp_v3_membership_report : ℕ
igmp_v3_membership_report = 0x22

abbrev pub ipproto_igmp : ℕ
ipproto_igmp = 2

-- `get_iov_min_size`: an IP header of 20 bytes, an IGMP message of 8, the option and 10000.
abbrev pub iov_min_size : ℕ
iov_min_size = 20 + 8 + 4 + 10000

-- A cache miss that the kernel reports.
unfoldable pub kernel_msg : Receiver → IgmpPacket → List ReceivedMsg
kernel_msg r p =
    let i = r.get_if_index_of_vif p.im_vif in
    if not p.is_nocache || (i == 0) || not (is_if_index_relevant r i)
    then []
    else new_source_msg i p.im_dst p.im_src ∷ []

-- A report or a leave message of IGMPv2, from its first byte on; the group is read behind the checks.
unfoldable pub v2_msg : ℕ → ℕ → List ℕ → Option (List ReceivedMsg)
v2_msg type i buf = do
  b ← skip 4 buf
  (gaddr, _) ← read_number 4 b
  some (
      group_record_msg i (record {
        record_type =
            if type == igmp_v2_membership_report then mode_is_exclude else change_to_include_mode;
        gaddr = gaddr;
        slist = [];
        grp_mem_proto = igmpv2;
      })
      ∷ [])

-- The messages of IGMP, by the type in the first byte.
unfoldable pub igmp_msg : Receiver → ℕ → List ℕ → Option (List ReceivedMsg)
igmp_msg r ip_src buf = do
  (type, _) ← read_number 1 buf
  let i = r.get_if_index_of_addr ip_src
  let ignored = (i == 0) || not (is_if_index_relevant r i)
  if (type == igmp_v2_membership_report) || (type == igmp_v2_leave_group)
      then (if ignored then some [] else v2_msg type i buf)
      else if type == igmp_v3_membership_report
      then (if ignored then some [] else read_report 4 igmpv3 i buf)
      else some []

-- `analyse_packet`: the messages that are added, or `none` for a byte outside of the buffer.
unfoldable pub analyse_igmp : Receiver → IgmpPacket → Option (List ReceivedMsg)
analyse_igmp r p =
    if p.ip_p == 0
    then some (kernel_msg r p)
    else if (p.ip_p == ipproto_igmp) && leb p.ip_len iov_min_size
    then skip (p.ip_hl * 4) p.buffer >>= igmp_msg r p.ip_src
    else some []
