-- ===== src/Receiver/Report.antt =====
-- mcproxy/src/proxy/igmp_receiver.cpp and mcproxy/src/proxy/mld_receiver.cpp: the reports with records
-- that RFC 3376, section 4.2, and RFC 3810, section 5.2, describe are read as they are written.
use mcproxy.Base.{ℕ, ◌*◌, ◌^◌, ◌<◌, ◌≡◌, refl, subst, some, List, [], ◌∷◌, ◌++◌, map, length, All}
use mcproxy.SourceList.{insert}
use mcproxy.Protocol.{GroupMemProtocol}
use mcproxy.Message.{key, new_source, Source, GroupRecord}
use mcproxy.Addr.Value.{size}
use mcproxy.Buffer.{skip, advance}
use mcproxy.Buffer.Written.{network_bytes, read_number-network_bytes, skip-prefix, advance-prefix}
use mcproxy.Receiver.{
  record_type_of, read_sources, read_record, read_records, read_report, ReceivedMsg,
  group_record_msg,
}

-- A record of a report: its type, the group, the sources, and the auxiliary data in words of four
-- bytes.
pub record ReportRecord : Type 0 where
  pub type : ℕ
  pub gaddr : ℕ
  pub sources : List ℕ
  pub aux_words : ℕ
  pub aux : List ℕ

unfoldable pub write_sources : ℕ → List ℕ → List ℕ → List ℕ
write_sources size [] rest = rest
write_sources size (a ∷ l) rest = network_bytes size a ++ write_sources size l rest

-- The bytes of a record in front of other bytes.
unfoldable pub write_record : ℕ → ReportRecord → List ℕ → List ℕ
write_record size r rest =
    network_bytes 1 r.type
    ++ (network_bytes 1 r.aux_words
        ++ (network_bytes 2 (length r.sources)
            ++ (network_bytes size r.gaddr ++ write_sources size r.sources (r.aux ++ rest))))

unfoldable pub write_records : ℕ → List ReportRecord → List ℕ → List ℕ
write_records size [] rest = rest
write_records size (r ∷ l) rest = write_record size r (write_records size l rest)

-- The header of a report is six bytes and the number of its records.
unfoldable pub write_report : ℕ → List ℕ → List ReportRecord → List ℕ → List ℕ
write_report size header l rest =
    header ++ (network_bytes 2 (length l) ++ write_records size l rest)

-- The fields have their widths.
pub record FitsRecord (size : ℕ) (r : ReportRecord) : Type 0 where
  pub type_fits : r.type < 256 ^ 1
  pub gaddr_fits : r.gaddr < 256 ^ size
  pub sources_fit : All (λ a. a < 256 ^ size) r.sources
  pub length_fits : length r.sources < 256 ^ 2
  pub aux_fits : r.aux_words < 256 ^ 1
  pub aux_length : length r.aux ≡ r.aux_words * 4

-- The set of sources without timers.
abbrev pub set_of : List Source → List ℕ → List Source
set_of slist [] = slist
set_of slist (a ∷ l) = set_of (insert key (new_source a) slist) l

unfoldable pub meaning : GroupMemProtocol → ReportRecord → GroupRecord
meaning proto r = record {
  record_type = record_type_of r.type;
  gaddr = r.gaddr;
  slist = set_of [] r.sources;
  grp_mem_proto = proto;
}

read_sources-write_sources :
    (size : ℕ) (l rest : List ℕ) (slist : List Source)
    → All (λ a. a < 256 ^ size) l
    → read_sources size (length l) slist (write_sources size l rest) ≡ some (set_of slist l, rest)
unfolding read_sources write_sources
read_sources-write_sources size [] rest slist h = refl
read_sources-write_sources size (a ∷ l) rest slist h =
    rw (read_number-network_bytes size a (write_sources size l rest) h.0)
      (read_sources-write_sources size l rest (insert key (new_source a) slist) h.1)

pub skip-aux : (n : ℕ) (aux rest : List ℕ) → length aux ≡ n → skip n (aux ++ rest) ≡ some rest
skip-aux n aux rest e = subst (λ k. skip k (aux ++ rest) ≡ some rest) e (skip-prefix aux rest)

advance-aux : (n : ℕ) (aux rest : List ℕ) → length aux ≡ n → advance n (aux ++ rest) ≡ rest
advance-aux n aux rest e = subst (λ k. advance k (aux ++ rest) ≡ rest) e (advance-prefix aux rest)

pub read_record-write_record :
    (size : ℕ) (proto : GroupMemProtocol) (r : ReportRecord) (rest : List ℕ)
    → FitsRecord size r
    → read_record size proto (write_record size r rest) ≡ some (meaning proto r, rest)
unfolding read_record write_record meaning
read_record-write_record size proto r rest h =
    rw (read_number-network_bytes 1 r.type _ h.type_fits) (
      rw (read_number-network_bytes 1 r.aux_words _ h.aux_fits) (
        rw (read_number-network_bytes 2 (length r.sources) _ h.length_fits) (
          rw (read_number-network_bytes size r.gaddr _ h.gaddr_fits) (
            rw (read_sources-write_sources size r.sources (r.aux ++ rest) [] h.sources_fit)
              (rw (advance-aux (r.aux_words * 4) r.aux rest h.aux_length) refl)))))

abbrev pub report_msgs : GroupMemProtocol → ℕ → List ReportRecord → List ReceivedMsg
report_msgs proto i l = map (λ r. group_record_msg i (meaning proto r)) l

read_records-write_records :
    (size : ℕ) (proto : GroupMemProtocol) (i : ℕ) (l : List ReportRecord) (rest : List ℕ)
    → All (FitsRecord size) l
    → read_records size proto i (length l) (write_records size l rest)
      ≡ some (report_msgs proto i l)
unfolding read_records write_records
read_records-write_records size proto i [] rest h = refl
read_records-write_records size proto i (r ∷ l) rest h =
    rw (read_record-write_record size proto r (write_records size l rest) h.0)
      (rw (read_records-write_records size proto i l rest h.1) refl)

pub read_report-write_report :
    (size : ℕ) (proto : GroupMemProtocol) (i : ℕ) (header : List ℕ) (l : List ReportRecord)
    (rest : List ℕ)
    → length header ≡ 6
    → length l < 256 ^ 2
    → All (FitsRecord size) l
    → read_report size proto i (write_report size header l rest) ≡ some (report_msgs proto i l)
unfolding read_report write_report
read_report-write_report size proto i header l rest e n h =
    rw (skip-aux 6 header (network_bytes 2 (length l) ++ write_records size l rest) e) (
      rw (read_number-network_bytes 2 (length l) (write_records size l rest) n)
        (read_records-write_records size proto i l rest h))
