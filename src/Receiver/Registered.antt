-- ===== src/Receiver/Registered.antt =====
-- mcproxy/src/proxy/igmp_receiver.cpp and mcproxy/src/proxy/mld_receiver.cpp: which messages leave a
-- receiver.
use mcproxy.Base.{
  ℕ, zero, suc, ◌*◌, ◌≡◌, refl, Bool, true, false, not, ◌&&◌, ◌||◌, Option, none, some, List, [],
  ◌∷◌, arith, leb, ◌==◌, if◌then◌else◌, All,
}
use mcproxy.SourceList.{insert, find?}
use mcproxy.SourceList.Laws.{insert-Ascending, find?-insert}
use mcproxy.Protocol.{GroupMemProtocol, igmpv3, mldv2}
use mcproxy.Message.{key, new_source, Source, GroupRecord}
use mcproxy.Querier.Invariant.{IsFresh}
use mcproxy.Addr.Value.{size}
use mcproxy.Buffer.{◌>>=◌, skip, read_number, Holds, >>=-Holds, >>=-Holds_any}
use mcproxy.Receiver.{
  is_if_index_relevant, read_sources, read_record, read_records, read_report, Receiver, ReceivedMsg,
  new_source_msg, group_record_msg,
}
use mcproxy.Receiver.Igmp.{
  igmp_v2_membership_report, igmp_v2_leave_group, igmp_v3_membership_report, ipproto_igmp,
  iov_min_size, kernel_msg, v2_msg, igmp_msg, analyse_igmp, IgmpPacket,
}
use mcproxy.Receiver.Mld.{
  mld_listener_report, mld_listener_reduction, mld_v2_listener_report, packet_info, kernel_msg6,
  v1_msg, mld_msg, analyse_mld, MldPacket,
}

insert-IsFresh : (a : ℕ) (l : List Source) → IsFresh l → IsFresh (insert key (new_source a) l)
unfolding new_source
insert-IsFresh a l h = record {
  sorted = insert-Ascending key 0 (new_source a) l (omega arith) h.sorted;
  untouched = λ j. ground (arith, find?-insert key j 0 (new_source a) l h.sorted, h.untouched j);
}

read_sources-IsFresh :
    (size n : ℕ) (slist : List Source) (buf : List ℕ)
    → IsFresh slist
    → Holds (λ (r : List Source × List ℕ). IsFresh r.0) (read_sources size n slist buf)
unfolding read_sources
read_sources-IsFresh size zero slist buf h = h
read_sources-IsFresh size (suc n) slist buf h =
    >>=-Holds_any _ (read_number size buf) _ λ (a, buf').
      read_sources-IsFresh size n (insert key (new_source a) slist) buf' (insert-IsFresh a slist h)

empty-IsFresh : IsFresh []
unfolding find?
empty-IsFresh = record { sorted = tt; untouched = λ j. tt }

read_record-IsFresh :
    (size : ℕ) (proto : GroupMemProtocol) (buf : List ℕ)
    → Holds (λ (r : GroupRecord × List ℕ). IsFresh r.0.slist) (read_record size proto buf)
unfolding read_record
read_record-IsFresh size proto buf = >>=-Holds_any _ (read_number 1 buf) _ λ (t, b1).
    >>=-Holds_any _ (read_number 1 b1) _ λ (aux, b2).
      >>=-Holds_any _ (read_number 2 b2) _ λ (n, b3).
        >>=-Holds_any _ (read_number size b3) _ λ (g, b4).
          >>=-Holds (λ r. IsFresh r.0) _ (read_sources size n [] b4) _
            (read_sources-IsFresh size n [] b4 empty-IsFresh) λ (l, b5) h. h

-- A message names a registered interface, and the sources of a record are a set without timers.
pub Received : Receiver → ReceivedMsg → Type 0
Received r (new_source_msg i gaddr saddr) = is_if_index_relevant r i ≡ true
Received r (group_record_msg i gr) = (is_if_index_relevant r i ≡ true) × IsFresh gr.slist

module _ (r : Receiver) where
  read_records-Received :
      (size : ℕ) (proto : GroupMemProtocol) (i n : ℕ) (buf : List ℕ)
      → is_if_index_relevant r i ≡ true
      → Holds (All (Received r)) (read_records size proto i n buf)
  unfolding read_records Received
  read_records-Received size proto i zero buf h = tt
  read_records-Received size proto i (suc n) buf h =
      >>=-Holds (λ g. IsFresh g.0.slist) _ (read_record size proto buf) _
        (read_record-IsFresh size proto buf)
        λ (g, buf') hg.
          >>=-Holds (All (Received r)) _ (read_records size proto i n buf') _
            (read_records-Received size proto i n buf' h) λ msgs hm. ((h, hg), hm)

  read_report-Received :
      (size : ℕ) (proto : GroupMemProtocol) (i : ℕ) (buf : List ℕ)
      → is_if_index_relevant r i ≡ true
      → Holds (All (Received r)) (read_report size proto i buf)
  unfolding read_report
  read_report-Received size proto i buf h = >>=-Holds_any _ (skip 6 buf) _ λ b.
      >>=-Holds_any _ (read_number 2 b) _
        λ (n, records). read_records-Received size proto i n records h

  v2_msg-Received :
      (type i : ℕ) (buf : List ℕ)
      → is_if_index_relevant r i ≡ true
      → Holds (All (Received r)) (v2_msg type i buf)
  unfolding v2_msg Received
  v2_msg-Received type i buf h =
      >>=-Holds_any _ (skip 4 buf) _
        λ b. >>=-Holds_any _ (read_number 4 b) _ λ (g, _). ((h, empty-IsFresh), tt)

  v1_msg-Received :
      (type i : ℕ) (buf : List ℕ)
      → is_if_index_relevant r i ≡ true
      → Holds (All (Received r)) (v1_msg type i buf)
  unfolding v1_msg Received
  v1_msg-Received type i buf h =
      >>=-Holds_any _ (skip 8 buf) _
        λ b. >>=-Holds_any _ (read_number 16 b) _ λ (g, _). ((h, empty-IsFresh), tt)

  -- A branch whose test is known.
  branch-Received :
      (b : Bool) (m k : Option (List ReceivedMsg))
      → (b ≡ true → Holds (All (Received r)) m)
      → (b ≡ false → Holds (All (Received r)) k)
      → Holds (All (Received r)) (if b then m else k)
  branch-Received true m k hm hk = hm refl
  branch-Received false m k hm hk = hk refl

  -- The message of a cache miss, for either family.
  source-Received :
      (b : Bool) (i gaddr saddr : ℕ)
      → All (Received r) (
          if b || (i == 0) || not (is_if_index_relevant r i)
          then []
          else new_source_msg i gaddr saddr ∷ [])
  unfolding Received
  source-Received b i gaddr saddr = ground arith

  abbrev ignores : ℕ → Bool
  ignores i = (i == 0) || not (is_if_index_relevant r i)

  not_ignored : (i : ℕ) → ignores i ≡ false → is_if_index_relevant r i ≡ true
  not_ignored i e = ground arith

  v2_branch-Received :
      (type i : ℕ) (buf : List ℕ)
      → Holds (All (Received r)) (if ignores i then some [] else v2_msg type i buf)
  v2_branch-Received type i buf =
      branch-Received (ignores i) (some []) (v2_msg type i buf) (λ _. tt)
        λ e. v2_msg-Received type i buf (not_ignored i e)

  v3_branch-Received :
      (i : ℕ) (buf : List ℕ)
      → Holds (All (Received r)) (if ignores i then some [] else read_report 4 igmpv3 i buf)
  v3_branch-Received i buf =
      branch-Received (ignores i) (some []) (read_report 4 igmpv3 i buf) (λ _. tt)
        λ e. read_report-Received 4 igmpv3 i buf (not_ignored i e)

  igmp_msg-Received : (ip_src : ℕ) (buf : List ℕ) → Holds (All (Received r)) (igmp_msg r ip_src buf)
  unfolding igmp_msg
  igmp_msg-Received ip_src buf =
      let i = r.get_if_index_of_addr ip_src in
      >>=-Holds_any (All (Received r)) (read_number 1 buf) _ λ (type, _).
        branch-Received ((type == igmp_v2_membership_report) || (type == igmp_v2_leave_group)) _ _
          (λ _. v2_branch-Received type i buf)
          λ _.
            branch-Received (type == igmp_v3_membership_report) _ (some [])
              (λ _. v3_branch-Received i buf) (λ _. tt)

  pub analyse_igmp-Received : (p : IgmpPacket) → Holds (All (Received r)) (analyse_igmp r p)
  unfolding analyse_igmp kernel_msg
  analyse_igmp-Received p =
      branch-Received (p.ip_p == 0) (some (kernel_msg r p)) _
        (λ _. source-Received (not p.is_nocache) (r.get_if_index_of_vif p.im_vif) p.im_dst p.im_src)
        λ _.
          branch-Received ((p.ip_p == ipproto_igmp) && leb p.ip_len iov_min_size)
            (skip (p.ip_hl * 4) p.buffer >>= igmp_msg r p.ip_src) (some [])
            (λ _.
              >>=-Holds_any (All (Received r)) (skip (p.ip_hl * 4) p.buffer) (igmp_msg r p.ip_src)
                λ buf. igmp_msg-Received p.ip_src buf)
            (λ _. tt)

  abbrev mld_by_info : ℕ → List ℕ → Option ℕ → Option (List ReceivedMsg)
  mld_by_info type buf none = some []
  mld_by_info type buf (some i) =
      if (type == mld_listener_report) || (type == mld_listener_reduction)
      then (if is_if_index_relevant r i then v1_msg type i buf else some [])
      else if type == mld_v2_listener_report
      then (if is_if_index_relevant r i then read_report 16 mldv2 i buf else some [])
      else some []

  mld_by_info-Received :
      (type : ℕ) (buf : List ℕ) (info : Option ℕ)
      → Holds (All (Received r)) (mld_by_info type buf info)
  mld_by_info-Received type buf none = tt
  mld_by_info-Received type buf (some i) =
      branch-Received ((type == mld_listener_report) || (type == mld_listener_reduction)) _ _
        (λ _.
          branch-Received (is_if_index_relevant r i) (v1_msg type i buf) (some [])
            (v1_msg-Received type i buf) (λ _. tt))
        λ _.
          branch-Received (type == mld_v2_listener_report) _ (some [])
            (λ _.
              branch-Received (is_if_index_relevant r i) (read_report 16 mldv2 i buf) (some [])
                (read_report-Received 16 mldv2 i buf) (λ _. tt))
            (λ _. tt)

  pub analyse_mld-Received : (p : MldPacket) → Holds (All (Received r)) (analyse_mld r p)
  unfolding analyse_mld kernel_msg6 mld_msg
  analyse_mld-Received p = >>=-Holds_any (All (Received r)) (read_number 1 p.buffer) _ λ (type, _).
      branch-Received (type == 0) (some (kernel_msg6 r p)) _
        (λ _.
          source-Received (not p.is_nocache) (r.get_if_index_of_vif p.im6_mif) p.im6_dst p.im6_src)
        λ _. mld_by_info-Received type p.buffer (packet_info none p.control)

-- Whatever the packet, and if no byte outside of the buffer is read: each message of either receiver
-- names an interface that is registered, and the source list of a record is a sorted set of sources
-- without timers, as `receive_record` of the querier needs it.
pub analyse-Received :
    (r : Receiver) (p : IgmpPacket) (q : MldPacket)
    → Holds (All (Received r)) (analyse_igmp r p) × Holds (All (Received r)) (analyse_mld r q)
analyse-Received r p q = (analyse_igmp-Received r p, analyse_mld-Received r q)
