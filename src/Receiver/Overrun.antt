-- ===== src/Receiver/Overrun.antt =====
-- mcproxy/src/proxy/igmp_receiver.cpp: a report in which a record claims more sources than the buffer
-- has. The length of the packet is not compared with it.
use mcproxy.Base.{
  ℕ, zero, suc, ◌+◌, ◌*◌, ◌^◌, ◌<◌, ◌≡◌, refl, sym, ◌∙◌, ◌↔◌, false, Option, none, some, List, [],
  ◌∷◌, ◌++◌, arith, ◌==◌, length, All,
}
use mcproxy.SourceList.{insert}
use mcproxy.Protocol.{GroupMemProtocol, igmpv3}
use mcproxy.Message.{key, new_source, Source, GroupRecord}
use mcproxy.Addr.Value.{size}
use mcproxy.Buffer.{◌>>=◌, skip, advance, read_more, read_number}
use mcproxy.Buffer.Written.{network_bytes, read_number-network_bytes}
use mcproxy.Receiver.{
  record_type_of, read_sources, read_record, read_records, read_report, Receiver,
}
use mcproxy.Receiver.Igmp.{igmp_v3_membership_report, igmp_msg, analyse_igmp, IgmpPacket}
use mcproxy.Receiver.Report.{
  write_records, skip-aux, read_record-write_record, ReportRecord, FitsRecord,
}
use mcproxy.Receiver.Packets.{IsReport}

-- A read of `n` bytes fails where the buffer is shorter, or leaves a buffer that is shorter by them.
Reads {ℓ} : {A : Type ℓ} → ℕ → List ℕ → (A → List ℕ) → Option A → Type 0
Reads n buf left none = length buf < n
Reads n buf left (some a) = length (left a) + n ≡ length buf

Reads-none {ℓ} :
    {A : Type ℓ} (n : ℕ) (buf : List ℕ) (left : A → List ℕ) (o : Option A)
    → Reads n buf left o
    → (o ≡ none) ↔ (length buf < n)
unfolding Reads
Reads-none n buf left none h = (λ e. h, λ k. refl)
Reads-none n buf left (some a) h = (λ e. cc, λ k. absurd (omega arith))

-- A read in front of another one.
Reads-after {ℓ} :
    {A : Type ℓ} (n m k : ℕ) (l buf : List ℕ) (left : A → List ℕ) (o : Option A)
    → k ≡ n + m
    → length l + n ≡ length buf
    → Reads m l left o
    → Reads k buf left o
unfolding Reads
Reads-after n m k l buf left none ek e h = omega arith
Reads-after n m k l buf left (some a) ek e h = omega arith

Reads-then {ℓ κ} :
    {A : Type ℓ} {B : Type κ} (n m k : ℕ) (buf : List ℕ) (left : A → List ℕ) (left' : B → List ℕ)
    (o : Option A) (f : A → Option B)
    → k ≡ n + m
    → Reads n buf left o
    → ((a : A) → Reads m (left a) left' (f a))
    → Reads k buf left' (o >>= f)
unfolding Reads
Reads-then n m k buf left left' none f ek h next = omega arith
Reads-then n m k buf left left' (some a) f ek h next =
    Reads-after n m k (left a) buf left' (f a) ek h (next a)

skip-Reads : (n : ℕ) (buf : List ℕ) → Reads n buf (λ b. b) (skip n buf)
unfolding skip Reads
skip-Reads zero buf = omega arith
skip-Reads (suc n) [] = omega arith
skip-Reads (suc n) (b ∷ buf) =
    Reads-after 1 n (suc n) buf (b ∷ buf) (λ b. b) (skip n buf) (omega arith) (omega arith)
      (skip-Reads n buf)

read_more-Reads : (n acc : ℕ) (buf : List ℕ) → Reads n buf (λ r. r.1) (read_more n acc buf)
unfolding read_more Reads
read_more-Reads zero acc buf = omega arith
read_more-Reads (suc n) acc [] = omega arith
read_more-Reads (suc n) acc (b ∷ buf) =
    Reads-after 1 n (suc n) buf (b ∷ buf) (λ r. r.1) (read_more n (acc * 256 + b) buf) (omega arith)
      (omega arith) (read_more-Reads n (acc * 256 + b) buf)

read_sources-Reads :
    (size n : ℕ) (slist : List Source) (buf : List ℕ)
    → Reads (n * size) buf (λ r. r.1) (read_sources size n slist buf)
unfolding read_sources Reads
read_sources-Reads size zero slist buf = omega arith
read_sources-Reads size (suc n) slist buf =
    Reads-then size (n * size) (suc n * size) buf (λ (r : ℕ × List ℕ). r.1)
      (λ (r : List Source × List ℕ). r.1) (read_number size buf) _ (omega arith)
      (read_more-Reads size 0 buf)
      λ (a, rest). read_sources-Reads size n (insert key (new_source a) slist) rest

-- The end of a record behind its first fields.
abbrev record_end : ℕ → GroupMemProtocol → ℕ → ℕ → ℕ → ℕ → List ℕ → Option (GroupRecord × List ℕ)
record_end size proto type gaddr nos aux_words buf = do
  (slist, b5) ← read_sources size nos [] buf
  some (
    record {
      record_type = record_type_of type;
      gaddr = gaddr;
      slist = slist;
      grp_mem_proto = proto;
    },
    advance (aux_words * 4) b5,
  )

some-none {ℓ κ} :
    {A : Type ℓ} {B : Type κ} (o : Option A) (f : A → B)
    → ((o >>= λ a. some (f a)) ≡ none) ↔ (o ≡ none)
some-none none f = (λ e. refl, λ e. refl)
some-none (some a) f = (λ e. cc, λ e. cc)

record_end-none :
    (size : ℕ) (proto : GroupMemProtocol) (type gaddr nos aux_words : ℕ) (buf : List ℕ)
    → (record_end size proto type gaddr nos aux_words buf ≡ none) ↔ (length buf < nos * size)
record_end-none size proto type gaddr nos aux_words buf =
    let one = some-none (read_sources size nos [] buf) _ in
    let last =
      Reads-none (nos * size) buf (λ (r : List Source × List ℕ). r.1) (read_sources size nos [] buf)
        (read_sources-Reads size nos [] buf) in
    (λ e. last.0 (one.0 e), λ k. one.1 (last.1 k))

-- The first eight bytes of a record of IGMPv3, in front of others.
abbrev pub record_head : ℕ → ℕ → ℕ → ℕ → List ℕ → List ℕ
record_head type aux_words nos gaddr rest =
    network_bytes 1 type
    ++ (network_bytes 1 aux_words ++ (network_bytes 2 nos ++ (network_bytes 4 gaddr ++ rest)))

-- A report with whole records and a last one that may claim too much.
abbrev pub claimed_report : List ℕ → List ReportRecord → ℕ → ℕ → ℕ → ℕ → List ℕ → List ℕ
claimed_report header l type aux_words nos gaddr left =
    header
    ++ (network_bytes 2 (suc (length l))
        ++ write_records 4 l (record_head type aux_words nos gaddr left))

read_record-head :
    (proto : GroupMemProtocol) (type aux_words nos gaddr : ℕ) (buf : List ℕ)
    → type < 256 ^ 1
    → aux_words < 256 ^ 1
    → nos < 256 ^ 2
    → gaddr < 256 ^ 4
    → read_record 4 proto (record_head type aux_words nos gaddr buf)
      ≡ record_end 4 proto type gaddr nos aux_words buf
unfolding read_record
read_record-head proto type aux_words nos gaddr buf ht ha hn hg =
    rw (read_number-network_bytes 1 type _ ht) (
      rw (read_number-network_bytes 1 aux_words _ ha) (
        rw (read_number-network_bytes 2 nos _ hn)
          (rw (read_number-network_bytes 4 gaddr buf hg) refl)))

-- Records that are whole in front of the last one.
records_fail :
    (proto : GroupMemProtocol) (i : ℕ) (l : List ReportRecord) (buf : List ℕ)
    → All (FitsRecord 4) l
    → (read_records 4 proto i (suc (length l)) (write_records 4 l buf) ≡ none)
      ↔ (read_record 4 proto buf ≡ none)
unfolding read_records write_records
records_fail proto i [] buf h = some-none (read_record 4 proto buf) _
records_fail proto i (r ∷ l) buf h =
    let last = records_fail proto i l buf h.1 in
    let one = some-none (read_records 4 proto i (suc (length l)) (write_records 4 l buf)) _ in
    rw (read_record-write_record 4 proto r (write_records 4 l buf) h.0)
      (λ e. last.0 (one.0 e), λ k. one.1 (last.1 k))

report_fails :
    (i : ℕ) (header : List ℕ) (l : List ReportRecord) (type aux_words nos gaddr : ℕ) (left : List ℕ)
    → length header ≡ 6
    → suc (length l) < 256 ^ 2
    → All (FitsRecord 4) l
    → type < 256 ^ 1
    → aux_words < 256 ^ 1
    → nos < 256 ^ 2
    → gaddr < 256 ^ 4
    → (read_report 4 igmpv3 i (claimed_report header l type aux_words nos gaddr left) ≡ none)
      ↔ (length left < nos * 4)
unfolding read_report
report_fails i header l type aux_words nos gaddr left eh hl hf ht ha hn hg =
    let buf = record_head type aux_words nos gaddr left in
    let records = write_records 4 l buf in
    let many = records_fail igmpv3 i l buf hf in
    let same = read_record-head igmpv3 type aux_words nos gaddr left ht ha hn hg in
    let last = record_end-none 4 igmpv3 type gaddr nos aux_words left in
    rw (skip-aux 6 header (network_bytes 2 (suc (length l)) ++ records) eh) (
      rw (read_number-network_bytes 2 (suc (length l)) records hl)
        (λ e. last.0 (sym same ∙ many.0 e), λ k. many.1 (same ∙ last.1 k)))

-- A packet of IGMPv3 from a registered interface, with any number of whole records and a last one:
-- `analyse_packet` reads outside of the buffer exactly if the sources that the last record claims to have
-- are more bytes than the buffer has left, whatever auxiliary data it claims to have; the length of the
-- packet is not looked at.
pub analyse_igmp-overrun :
    (r : Receiver) (p : IgmpPacket) (i : ℕ) (ip_header header : List ℕ) (l : List ReportRecord)
    (type aux_words nos gaddr : ℕ) (left : List ℕ)
    → IsReport r p i
    → length ip_header ≡ p.ip_hl * 4
    → length header ≡ 5
    → suc (length l) < 256 ^ 2
    → All (FitsRecord 4) l
    → type < 256 ^ 1
    → aux_words < 256 ^ 1
    → nos < 256 ^ 2
    → gaddr < 256 ^ 4
    → p.buffer
      ≡ ip_header
        ++ claimed_report (igmp_v3_membership_report ∷ header) l type aux_words nos gaddr left
    → (analyse_igmp r p ≡ none) ↔ (length left < nos * 4)
unfolding analyse_igmp igmp_msg read_more
analyse_igmp-overrun r p i ip_header header l type aux_words nos gaddr left h ei eh hl hf ht ha hn
      hg eb =
    let known : (i == 0) ≡ false = ground (arith, h.is_some_interface) in
    rw h.is_igmp (
      rw h.is_short (
        rw eb (
          rw (skip-aux (p.ip_hl * 4) ip_header body ei)
            (rw h.comes_from (rw known (rw h.is_registered fails))))))
  where
    body : List ℕ
    body = claimed_report (igmp_v3_membership_report ∷ header) l type aux_words nos gaddr left

    fails : (read_report 4 igmpv3 i body ≡ none) ↔ (length left < nos * 4)
    fails =
        report_fails i (igmp_v3_membership_report ∷ header) l type aux_words nos gaddr left
          (omega arith) hl hf ht ha hn hg
