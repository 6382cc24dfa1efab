-- ===== src/Tests/AddrRuns.antt =====
-- Concrete inputs for mcproxy/src/utils/addr_storage.cpp.
use mcproxy.Base.{
  ◌+◌, ◌-◌, ◌/◌, ◌%◌, ◌^◌, ◌≤◌, ◌<◌, ◌≡◌, refl, ◌≢◌, ◌↔◌, true, ◌&&◌, none, some, arith, ltb, leb,
  ◌==◌,
}
use mcproxy.Addr.{
  get_addr_family, is_valid, addr_eq, addr_lt, addr_gt, addr_le, addr_ge, carry_up, prefix_inc,
  mask, broadcast_addr, Addr, ipv4, ipv6,
}
use mcproxy.Addr.Value.{value, size}
use mcproxy.Addr.Steps.{prefix_inc-value}
use mcproxy.Addr.Order.{addr_lt-numbers}
use mcproxy.Addr.Subnet.{mask-broadcast_addr, mask-undefined}

-- 239.255.255.255 and 240.0.0.0; ::ffff:ffff:ffff:ffff.
prefix_inc_run : prefix_inc (ipv4 0xefffffff) ≡ ipv4 0xf0000000
unfolding prefix_inc
prefix_inc_run = refl

prefix_inc_carry : prefix_inc (ipv6 0 0 0xffffffff 0xffffffff) ≡ ipv6 0 1 0 0
unfolding prefix_inc carry_up
prefix_inc_carry = refl

prefix_inc-value_example :
    value (prefix_inc (ipv6 0 0 0xffffffff 0xffffffff))
    ≡ (value (ipv6 0 0 0xffffffff 0xffffffff) + 1)
      % size (get_addr_family (ipv6 0 0 0xffffffff 0xffffffff))
prefix_inc-value_example = prefix_inc-value (ipv6 0 0 0xffffffff 0xffffffff) (ground arith)

abbrev low_addr : Addr
low_addr = ipv6 0xfe800000 0 0 1

abbrev high_addr : Addr
high_addr = ipv6 0xfe800000 0 1 0

addr_lt-numbers_example :
    (addr_eq low_addr high_addr ≡ (value low_addr == value high_addr))
    × (addr_lt low_addr high_addr ≡ ltb (value low_addr) (value high_addr))
    × (addr_le low_addr high_addr ≡ leb (value low_addr) (value high_addr))
    × (addr_gt low_addr high_addr ≡ ltb (value high_addr) (value low_addr))
    × (addr_ge low_addr high_addr ≡ leb (value high_addr) (value low_addr))
unfolding is_valid get_addr_family
addr_lt-numbers_example = addr_lt-numbers low_addr high_addr (ground arith) (ground arith) refl refl

-- 232.1.2.3/8 and 232.255.0.1.
mask-broadcast_addr_example :
    (lo : Addr) × (hi : Addr) × (mask 8 (ipv4 0xe8010203) ≡ some lo)
    × (broadcast_addr 8 (ipv4 0xe8010203) ≡ some hi)
    × ((addr_le lo (ipv4 0xe8ff0001) && addr_le (ipv4 0xe8ff0001) hi ≡ true)
        ↔ (0xe8ff0001 / 2 ^ (32 - 8) ≡ 0xe8010203 / 2 ^ (32 - 8)))
mask-broadcast_addr_example =
    mask-broadcast_addr 8 0xe8010203 0xe8ff0001 (omega arith) (omega arith) (omega arith)

mask-undefined_example :
    ((mask 48 (ipv4 0xe8010203) ≡ none) ↔ (32 ≤ 48))
    × ((mask 48 (ipv6 0xfe800000 0 0 1) ≡ none) ↔ ((32 < 48) × (48 < 128) × (48 % 32 ≢ 0)))
mask-undefined_example = mask-undefined 48 0xe8010203 0xfe800000 0 0 1
