-- ===== src/Tests/ReceiverRuns.antt =====
-- Packets for the receivers: mcproxy/src/proxy/igmp_receiver.cpp, mcproxy/src/proxy/mld_receiver.cpp.
use mcproxy.Base.{
  ℕ, ◌*◌, ◌<◌, ◌≡◌, refl, ◌↔◌, true, false, none, some, List, [], ◌∷◌, ◌++◌, arith, All,
}
use mcproxy.SourceList.{find?, contains}
use mcproxy.Protocol.{igmpv3, mldv2}
use mcproxy.Buffer.{Holds}
use mcproxy.Receiver.{is_if_index_relevant, Receiver}
use mcproxy.Receiver.Igmp.{igmp_v3_membership_report, ipproto_igmp, analyse_igmp, IgmpPacket}
use mcproxy.Receiver.Mld.{mld_v2_listener_report, packet_info, analyse_mld, MldPacket}
use mcproxy.Receiver.Report.{write_report, report_msgs, ReportRecord, FitsRecord}
use mcproxy.Receiver.Packets.{analyse_igmp-report, analyse_mld-report, IsReport}
use mcproxy.Receiver.Registered.{Received, analyse-Received}
use mcproxy.Receiver.Overrun.{claimed_report, analyse_igmp-overrun}
use mcproxy.VirtualInterfaces.{zeros}

abbrev test_receiver : Receiver
test_receiver = record {
  get_if_index_of_vif = λ v. 3;
  get_if_index_of_addr = λ a. 3;
  relevant_if_index = 3 ∷ [];
}

abbrev test_record : ReportRecord
test_record = record {
  type = 4;
  gaddr = 0xe1000001;
  sources = 9 ∷ 7 ∷ [];
  aux_words = 1;
  aux = 1 ∷ 2 ∷ 3 ∷ 4 ∷ [];
}

abbrev ip_header : List ℕ
ip_header = zeros 20

abbrev igmp_packet : List ℕ → IgmpPacket
igmp_packet body = record {
  ip_hl = 5;
  ip_p = ipproto_igmp;
  ip_len = 44;
  ip_src = 0x0a000001;
  is_nocache = false;
  im_vif = 0;
  im_src = 0;
  im_dst = 0;
  buffer = ip_header ++ body;
}

igmp_packet-IsReport : (body : List ℕ) → IsReport test_receiver (igmp_packet body) 3
unfolding is_if_index_relevant contains find?
igmp_packet-IsReport body = record {
  is_igmp = refl;
  is_short = refl;
  comes_from = refl;
  is_some_interface = omega arith;
  is_registered = refl;
}

fits4 : FitsRecord 4 test_record
fits4 = record {
  type_fits = omega arith;
  gaddr_fits = omega arith;
  sources_fit = (omega arith, (omega arith, tt));
  length_fits = omega arith;
  aux_fits = omega arith;
  aux_length = refl;
}

fits16 : FitsRecord 16 test_record
fits16 = record {
  type_fits = omega arith;
  gaddr_fits = omega arith;
  sources_fit = (omega arith, (omega arith, tt));
  length_fits = omega arith;
  aux_fits = omega arith;
  aux_length = refl;
}

abbrev igmp_body : List ℕ
igmp_body = write_report 4 (igmp_v3_membership_report ∷ zeros 5) (test_record ∷ []) (1 ∷ 2 ∷ [])

analyse_igmp-report_example :
    analyse_igmp test_receiver (igmp_packet igmp_body)
    ≡ some (report_msgs igmpv3 3 (test_record ∷ []))
analyse_igmp-report_example =
    analyse_igmp-report test_receiver (igmp_packet igmp_body) 3 ip_header (zeros 5)
      (test_record ∷ []) (1 ∷ 2 ∷ []) (igmp_packet-IsReport igmp_body) refl refl (omega arith)
      (fits4, tt) refl

abbrev mld_packet : MldPacket
mld_packet = record {
  is_nocache = false;
  im6_mif = 0;
  im6_src = 0;
  im6_dst = 0;
  control = (false, 0) ∷ (true, 3) ∷ [];
  buffer = write_report 16 (mld_v2_listener_report ∷ zeros 5) (test_record ∷ []) [];
}

-- The interface is named by the control messages.
info_found : packet_info none mld_packet.control ≡ some 3
unfolding packet_info
info_found = refl

found_relevant : is_if_index_relevant test_receiver 3 ≡ true
unfolding is_if_index_relevant contains find?
found_relevant = refl

analyse_mld-report_example :
    analyse_mld test_receiver mld_packet ≡ some (report_msgs mldv2 3 (test_record ∷ []))
analyse_mld-report_example =
    analyse_mld-report test_receiver mld_packet 3 (zeros 5) (test_record ∷ []) [] info_found
      found_relevant refl (omega arith) (fits16, tt) refl

analyse-Received_example :
    Holds (All (Received test_receiver)) (analyse_igmp test_receiver (igmp_packet igmp_body))
    × Holds (All (Received test_receiver)) (analyse_mld test_receiver mld_packet)
analyse-Received_example = analyse-Received test_receiver (igmp_packet igmp_body) mld_packet

-- A record that claims to have three sources, of which one and a half are there.
abbrev short_body : List ℕ
short_body =
    claimed_report (igmp_v3_membership_report ∷ zeros 5) (test_record ∷ []) 4 255 3 0xe1000001
      (0 ∷ 0 ∷ 0 ∷ 7 ∷ 0 ∷ 0 ∷ [])

analyse_igmp-overrun_example :
    (analyse_igmp test_receiver (igmp_packet short_body) ≡ none) ↔ (6 < 3 * 4)
analyse_igmp-overrun_example =
    analyse_igmp-overrun test_receiver (igmp_packet short_body) 3 ip_header (zeros 5)
      (test_record ∷ []) 4 255 3 0xe1000001 (0 ∷ 0 ∷ 0 ∷ 7 ∷ 0 ∷ 0 ∷ [])
      (igmp_packet-IsReport short_body) refl refl (omega arith) (fits4, tt) (omega arith)
      (omega arith) (omega arith) (omega arith) refl
