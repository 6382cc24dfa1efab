-- ===== src/VirtualInterfaces.antt =====
-- mcproxy/include/proxy/interfaces.hpp and mcproxy/src/proxy/interfaces.cpp: the numbers of the virtual
-- interfaces that the kernel's multicast routing knows.
pub mod Free
pub mod Consistent
use Prim.Native.Nat.{bit_and}
use mcproxy.Base.{
  ℕ, zero, suc, ◌*◌, Bool, true, false, Option, none, some, List, [], ◌∷◌, leb, ◌==◌, if◌then◌else◌,
}
use mcproxy.MapOf.{lookup, put, remove}
use mcproxy.TimersValues.{TimersValues}
use mcproxy.World.{World}
use mcproxy.Querier.Records.{Querier}
use mcproxy.Querier.Invariant.{Timed}
use mcproxy.MessageQueue.{MessageQueue}
use mcproxy.Text.{Text}
use mcproxy.Addr.{Addr, Family, af_unspec, af_inet, af_inet6}
use mcproxy.Rules.{Table}
use mcproxy.Interface.{Interface}
use mcproxy.Ending.{Ending}
use mcproxy.Token.{Token}
use mcproxy.Parser.{Parser}
use mcproxy.Configuration.{Configuration}
use mcproxy.Receiver.{Receiver}
use mcproxy.Receiver.Registered.{Received}

-- Calls of `m_reverse_path_filter`, by the interface's index.
pub data RpFilterCall : Type 0 where
  reset_rp_filter restore_rp_filter : ℕ → RpFilterCall

-- Both maps stand for `std::map`s; the newest call stands first.
pub record Interfaces : Type 0 where
  pub addr_family : Family
  pub reset_reverse_path_filter : Bool
  pub if_vif : List (ℕ × ℕ)
  pub vif_if : List (ℕ × ℕ)
  pub calls : List RpFilterCall

-- The constructor: a reverse path filter is of IPv4 only.
unfoldable pub new_interfaces : Family → Bool → Interfaces
new_interfaces family reset = record {
  addr_family = family;
  reset_reverse_path_filter = elim family [ af_inet ↦ reset | _ ↦ false ];
  if_vif = [];
  vif_if = [];
  calls = [];
}

-- `get_if_index(int)`: zero is `INTERFACES_UNKOWN_IF_INDEX`.
unfoldable pub get_if_index : Interfaces → ℕ → ℕ
get_if_index t vif = elim (lookup vif t.vif_if) [ none ↦ 0 | some i ↦ i ]

-- `none` is `INTERFACES_UNKOWN_VIF_INDEX`.
unfoldable pub get_virtual_if_index : Interfaces → ℕ → Option ℕ
get_virtual_if_index t i = lookup i t.if_vif

-- An interface that has an IPv4 address with a netmask, and its index; `none` where one of them is a null
-- pointer.
pub record IfProp : Type 0 where
  pub ip4_addr : Option (ℕ × ℕ)
  pub index : ℕ

-- `get_if_index(saddr)` for an IPv4 address: the first interface whose subnet has it.
unfoldable pub get_if_index_of_addr : List IfProp → ℕ → ℕ
get_if_index_of_addr [] saddr = 0
get_if_index_of_addr (e ∷ l) saddr =
    let rest = get_if_index_of_addr l saddr in
    elim e.ip4_addr [
      | none ↦ rest
      | some a ↦ if bit_and a.0 a.1 == bit_and a.1 saddr then e.index else rest
    ]

-- The vector of `n` elements that are zero.
abbrev pub zeros : ℕ → List ℕ
zeros zero = []
zeros (suc n) = 0 ∷ zeros n

-- `vifs[k] = x`
unfoldable pub set_element : ℕ → ℕ → List ℕ → List ℕ
set_element k x [] = []
set_element zero x (y ∷ l) = x ∷ l
set_element (suc k) x (y ∷ l) = y ∷ set_element k x l

-- The loop that fills the vector of `n` elements; it is left at a number that is too large.
unfoldable pub fill_vifs : ℕ → List (ℕ × ℕ) → List ℕ → Option (List ℕ)
fill_vifs n [] vifs = some vifs
fill_vifs n ((i, vif) ∷ m) vifs =
    let rest = fill_vifs n m (set_element vif i vifs) in if leb n vif then none else rest

-- The first element that is zero, counted from `i`.
unfoldable pub first_zero : ℕ → List ℕ → Option ℕ
first_zero i [] = none
first_zero i (x ∷ l) = if x == 0 then some i else first_zero (suc i) l

abbrev pub with_call : RpFilterCall → Interfaces → Interfaces
with_call c t = if t.reset_reverse_path_filter then record t { calls = c ∷ t.calls } else t

-- The insertions of `add_interface` for an interface that is up; `insert` of a map leaves a key that is
-- there.
unfoldable pub insert_interface : ℕ → ℕ → Interfaces → Bool × Interfaces
insert_interface i vif t = elim (lookup i t.if_vif) [
  | some v ↦ (true, t)
  | none ↦
      let t1 = record t { if_vif = put i vif t.if_vif } in
      elim (lookup vif t.vif_if) [
        | some j ↦ (false, t1)
        | none ↦ (true, with_call (reset_rp_filter i) (record t1 { vif_if = put vif i t.vif_if }))
      ]
]

unfoldable pub del_interface : ℕ → Interfaces → Bool × Interfaces
del_interface i t =
    let t1 = record t {
      vif_if = elim (get_virtual_if_index t i) [ none ↦ t.vif_if | some v ↦ remove v t.vif_if ];
      if_vif = remove i t.if_vif;
    } in
    if i == 0 then (false, t) else (true, with_call (restore_rp_filter i) t1)

-- `MAXVIFS` and `MAXMIFS` of the kernel's headers.
module _ (maxvifs maxmifs : ℕ) where
  unfoldable pub vifs_elements : Family → Option ℕ
  vifs_elements af_inet = some maxvifs
  vifs_elements af_inet6 = some maxmifs
  vifs_elements af_unspec = none

  unfoldable pub get_free_vif_number : Interfaces → Option ℕ
  get_free_vif_number t = elim (vifs_elements t.addr_family) [
    | none ↦ none
    | some n ↦ elim (fill_vifs n t.if_vif (zeros n)) [ none ↦ none | some vifs ↦ first_zero 0 vifs ]
  ]

  -- `is_up` is `is_interface(if_index, IFF_UP)`.
  unfoldable pub add_interface : (ℕ → Bool) → ℕ → Interfaces → Bool × Interfaces
  add_interface is_up i t = elim (get_free_vif_number t) [
    | none ↦ (false, t)
    | some vif ↦ if is_up i then insert_interface i vif t else (false, t)
  ]
