-- ===== src/ResponseCode.antt =====
-- mcproxy/src/proxy/timers_values.cpp: the floating point codes in which IGMPv3 and MLDv2 packets
-- carry durations. Durations are not negative; `<<` and `>>` are written as products and quotients.
use Prim.Native.Nat.{bit_and, bit_or}
pub mod Enumeration
pub mod RoundTrip
use mcproxy.Base.{ℕ, zero, suc, ◌+◌, ◌-◌, ◌*◌, ◌/◌, ◌%◌, ◌^◌, Bool, ltb, ◌==◌, if◌then◌else◌}
use mcproxy.TimersValues.{sec, TimersValues}
use mcproxy.World.{World}
use mcproxy.Querier.Records.{Querier}
use mcproxy.Querier.Invariant.{Timed}

-- `qqic_to_qqi(first_bit, exp, mant)`, for the bit fields of a packet.
unfoldable pub qqic_fields_to_qqi : Bool → ℕ → ℕ → ℕ
qqic_fields_to_qqi first_bit exp mant =
    let e = bit_and exp 0x7 in
    let m = bit_and mant 0xF in
    if first_bit then bit_or m 0x10 * 2 ^ (e + 3) else bit_or (e * 2 ^ 4) m

-- `qqic_to_qqi(qqic)`: the seconds that a byte stands for.
unfoldable pub qqic_to_qqi : ℕ → ℕ
qqic_to_qqi qqic =
    let exp = bit_and qqic 0x70 / 2 ^ 4 in
    let mant = bit_and qqic 0xF in
    if bit_and qqic 0x80 == 0 then qqic else bit_or mant 0x10 * 2 ^ (exp + 3)

-- The byte that the loop of `qqi_to_qqic` returns at the bit `position`.
unfoldable pub encode_qqic : ℕ → ℕ → ℕ
encode_qqic sec position =
    let exp = position - 5 + 1 in
    let mant = bit_and sec (0xF * 2 ^ exp) / 2 ^ exp in
    bit_or (bit_or (2 ^ 7) ((exp - 3) * 2 ^ 4)) mant % 2 ^ 8

-- The loop over the positions 15 to 7, `n` of which are left.
unfoldable pub qqic_loop : ℕ → ℕ → ℕ
unfolding encode_qqic
qqic_loop sec zero = 0
qqic_loop sec (suc n) =
    let rest = qqic_loop sec n in
    if bit_and sec (2 ^ (7 + n)) == 0 then rest else encode_qqic sec (7 + n)

unfoldable pub qqi_to_qqic : ℕ → ℕ
unfolding qqic_loop
qqi_to_qqic sec = if ltb sec 128 then sec else qqic_loop sec 9

unfoldable pub maxrespc_igmpv3_to_maxrespi : ℕ → ℕ
unfolding qqic_to_qqi
maxrespc_igmpv3_to_maxrespi max_resp_code = qqic_to_qqi max_resp_code * 100

unfoldable pub maxrespi_to_maxrespc_igmpv3 : ℕ → ℕ
unfolding qqi_to_qqic
maxrespi_to_maxrespc_igmpv3 msec = qqi_to_qqic (msec / 100)

unfoldable pub maxrespc_mldv2_to_maxrespi : ℕ → ℕ
maxrespc_mldv2_to_maxrespi max_resp_code =
    let exp = bit_and max_resp_code 0x7000 / 2 ^ 12 in
    let mant = bit_and max_resp_code 0xFFF in
    if bit_and max_resp_code 0x8000 == 0 then max_resp_code else bit_or mant 0x1000 * 2 ^ (exp + 3)

-- `1 << position` as a number of 64 bits: the int at position 31 is negative.
unfoldable pub int_bit : ℕ → ℕ
int_bit position = if position == 31 then 2 ^ 64 - 2 ^ 31 else 2 ^ position

unfoldable pub encode_mldv2 : ℕ → ℕ → ℕ
encode_mldv2 msec position =
    let exp = position - 12 in
    let mant = bit_and msec (0xFFF * 2 ^ exp) / 2 ^ exp in
    bit_or (bit_or (2 ^ 15) ((exp - 3) * 2 ^ 12)) mant % 2 ^ 16

-- The loop over the positions 31 to 15, `n` of which are left.
unfoldable pub mldv2_loop : ℕ → ℕ → ℕ
unfolding encode_mldv2 int_bit
mldv2_loop msec zero = 0
mldv2_loop msec (suc n) =
    let rest = mldv2_loop msec n in
    if bit_and msec (int_bit (15 + n)) == 0 then rest else encode_mldv2 msec (15 + n)

unfoldable pub maxrespi_to_maxrespc_mldv2 : ℕ → ℕ
unfolding mldv2_loop
maxrespi_to_maxrespc_mldv2 msec = if ltb msec 32767 then msec else mldv2_loop msec 17
