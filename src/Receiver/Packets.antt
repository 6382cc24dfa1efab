-- ===== src/Receiver/Packets.antt =====
-- mcproxy/src/proxy/igmp_receiver.cpp and mcproxy/src/proxy/mld_receiver.cpp: packets with a report of
-- IGMPv3 or MLDv2.
use mcproxy.Base.{
  ℕ, ◌*◌, ◌^◌, ◌<◌, ◌≡◌, ◌≢◌, Bool, true, false, none, some, List, ◌∷◌, ◌++◌, arith, leb, ◌==◌,
  length, All,
}
use mcproxy.Protocol.{igmpv3, mldv2}
use mcproxy.Buffer.{read_more}
use mcproxy.Receiver.{is_if_index_relevant, Receiver}
use mcproxy.Receiver.Igmp.{
  igmp_v3_membership_report, ipproto_igmp, iov_min_size, igmp_msg, analyse_igmp, IgmpPacket,
}
use mcproxy.Receiver.Mld.{mld_v2_listener_report, packet_info, mld_msg, analyse_mld, MldPacket}
use mcproxy.Receiver.Report.{
  write_report, skip-aux, report_msgs, read_report-write_report, ReportRecord, FitsRecord,
}

-- An IGMP packet whose sender is on the registered interface `i`.
pub record IsReport (r : Receiver) (p : IgmpPacket) (i : ℕ) : Type 0 where
  pub is_igmp : p.ip_p ≡ ipproto_igmp
  pub is_short : leb p.ip_len iov_min_size ≡ true
  pub comes_from : r.get_if_index_of_addr p.ip_src ≡ i
  pub is_some_interface : i ≢ 0
  pub is_registered : is_if_index_relevant r i ≡ true

igmp_msg-report :
    (r : Receiver) (p : IgmpPacket) (i : ℕ) (header : List ℕ) (l : List ReportRecord)
    (rest : List ℕ)
    → IsReport r p i
    → length header ≡ 5
    → length l < 256 ^ 2
    → All (FitsRecord 4) l
    → igmp_msg r p.ip_src (write_report 4 (igmp_v3_membership_report ∷ header) l rest)
      ≡ some (report_msgs igmpv3 i l)
unfolding igmp_msg write_report read_more
igmp_msg-report r p i header l rest h e n hl =
    let read =
      read_report-write_report 4 igmpv3 i (igmp_v3_membership_report ∷ header) l rest (omega arith)
        n hl in
    let known : (i == 0) ≡ false = ground (arith, h.is_some_interface) in
    rw h.comes_from (rw known (rw h.is_registered read))

-- What a packet with a report of IGMPv3 or MLDv2 adds, record for record.
pub analyse_igmp-report :
    (r : Receiver) (p : IgmpPacket) (i : ℕ) (ip_header header : List ℕ) (l : List ReportRecord)
    (rest : List ℕ)
    → IsReport r p i
    → length ip_header ≡ p.ip_hl * 4
    → length header ≡ 5
    → length l < 256 ^ 2
    → All (FitsRecord 4) l
    → p.buffer ≡ ip_header ++ write_report 4 (igmp_v3_membership_report ∷ header) l rest
    → analyse_igmp r p ≡ some (report_msgs igmpv3 i l)
unfolding analyse_igmp
analyse_igmp-report r p i ip_header header l rest h ei eh n hl eb =
    let body = write_report 4 (igmp_v3_membership_report ∷ header) l rest in
    rw h.is_igmp (
      rw h.is_short (
        rw eb (
          rw (skip-aux (p.ip_hl * 4) ip_header body ei)
            (igmp_msg-report r p i header l rest h eh n hl))))

mld_msg-report :
    (r : Receiver) (i : ℕ) (control : List (Bool × ℕ)) (header : List ℕ) (l : List ReportRecord)
    (rest : List ℕ)
    → packet_info none control ≡ some i
    → is_if_index_relevant r i ≡ true
    → length header ≡ 5
    → length l < 256 ^ 2
    → All (FitsRecord 16) l
    → mld_msg r mld_v2_listener_report control
        (write_report 16 (mld_v2_listener_report ∷ header) l rest)
      ≡ some (report_msgs mldv2 i l)
unfolding mld_msg
mld_msg-report r i control header l rest ei hr eh n hl =
    rw (ei, mld_msg)
      (rw hr (
        read_report-write_report 16 mldv2 i (mld_v2_listener_report ∷ header) l rest (omega arith) n
          hl))

pub analyse_mld-report :
    (r : Receiver) (p : MldPacket) (i : ℕ) (header : List ℕ) (l : List ReportRecord) (rest : List ℕ)
    → packet_info none p.control ≡ some i
    → is_if_index_relevant r i ≡ true
    → length header ≡ 5
    → length l < 256 ^ 2
    → All (FitsRecord 16) l
    → p.buffer ≡ write_report 16 (mld_v2_listener_report ∷ header) l rest
    → analyse_mld r p ≡ some (report_msgs mldv2 i l)
unfolding analyse_mld write_report read_more
analyse_mld-report r p i header l rest ei hr eh n hl eb =
    rw eb (mld_msg-report r i p.control header l rest ei hr eh n hl)
