-- ===== src/Protocol.antt =====
-- mcproxy/include/proxy/def.hpp and mcproxy/src/proxy/def.cpp: filter modes, protocol versions and
-- record types.
use Prim.Native.Nat.{bit_and, bit_or}
use mcproxy.Base.{ℕ, Bool, true, false, not, leb, ◌==◌}

pub data McFilter : Type 0 where
  include_mode exclude_mode : McFilter

pub data GroupMemProtocol : Type 0 where
  igmpv1 igmpv2 igmpv3 mldv1 mldv2 : GroupMemProtocol

-- The values of the enumeration.
abbrev pub code_of : GroupMemProtocol → ℕ
code_of igmpv1 = 0x1
code_of igmpv2 = 0x2
code_of igmpv3 = 0x4
code_of mldv1 = 0x8
code_of mldv2 = 0x10

unfoldable pub is_ipv4 : GroupMemProtocol → Bool
is_ipv4 gmp = not (
    bit_and (bit_or (bit_or (code_of igmpv1) (code_of igmpv2)) (code_of igmpv3)) (code_of gmp) == 0)

unfoldable pub is_ipv6 : GroupMemProtocol → Bool
is_ipv6 gmp = not (bit_and (bit_or (code_of mldv1) (code_of mldv2)) (code_of gmp) == 0)

unfoldable pub is_older_or_equal_version : GroupMemProtocol → GroupMemProtocol → Bool
is_older_or_equal_version older comp_to = leb (code_of older) (code_of comp_to)

unfoldable pub is_newest_version : GroupMemProtocol → Bool
is_newest_version igmpv3 = true
is_newest_version mldv2 = true
is_newest_version _ = false

-- The cast of `gmp * 2` back to the enumeration, where `gmp` is not the newest version.
unfoldable pub get_next_newer_version : GroupMemProtocol → GroupMemProtocol
get_next_newer_version igmpv1 = igmpv2
get_next_newer_version igmpv2 = igmpv3
get_next_newer_version igmpv3 = igmpv3
get_next_newer_version mldv1 = mldv2
get_next_newer_version mldv2 = mldv2

-- `unknown_record` is a byte of a report that is none of the six types.
pub data RecordType : Type 0 where
  mode_is_include mode_is_exclude change_to_include_mode change_to_exclude_mode : RecordType
  allow_new_sources block_old_sources : RecordType
  unknown_record : ℕ → RecordType
