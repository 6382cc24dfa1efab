-- ===== src/VirtualInterfaces/Consistent.antt =====
-- mcproxy/src/proxy/interfaces.cpp: the two maps of the virtual interfaces are inverse to each other.
use mcproxy.Base.{
  ℕ, ◌≡◌, refl, ◌≢◌, inl, inr, Bool, true, false, Option, none, some, List, [], ◌∷◌, arith, ◌==◌,
  if◌then◌else◌, Bool-cases, if-holds, All,
}
use mcproxy.MapOf.{lookup, put, remove, lookup-put, lookup-remove}
use mcproxy.Addr.{Family}
use mcproxy.VirtualInterfaces.{
  new_interfaces, get_virtual_if_index, with_call, insert_interface, del_interface,
  get_free_vif_number, add_interface, RpFilterCall, Interfaces, reset_rp_filter, restore_rp_filter,
}
use mcproxy.VirtualInterfaces.Free.{NonZero, get_free_vif_number-unused}

-- The maps are inverse to each other, and no index is zero.
pub record IsVifTable (t : Interfaces) : Type 0 where
  pub there : (i v : ℕ) → lookup i t.if_vif ≡ some v → lookup v t.vif_if ≡ some i
  pub back : (i v : ℕ) → lookup v t.vif_if ≡ some i → lookup i t.if_vif ≡ some v
  pub nonzero : NonZero t.if_vif

NonZero-put : (i v : ℕ) (m : List (ℕ × ℕ)) → i ≢ 0 → NonZero m → NonZero (put i v m)
unfolding put
NonZero-put i v [] hi h = (hi, tt)
NonZero-put i v ((j, w) ∷ m) hi h = ground (arith, NonZero-put i v m hi h.1)

NonZero-remove : (i : ℕ) (m : List (ℕ × ℕ)) → NonZero m → NonZero (remove i m)
unfolding remove
NonZero-remove i [] h = tt
NonZero-remove i ((j, w) ∷ m) h = ground (arith, NonZero-remove i m h.1)

put_both-IsVifTable :
    (t : Interfaces) (i v : ℕ)
    → IsVifTable t
    → i ≢ 0
    → lookup i t.if_vif ≡ none
    → lookup v t.vif_if ≡ none
    → IsVifTable (record t { if_vif = put i v t.if_vif; vif_if = put v i t.vif_if })
put_both-IsVifTable t i v h hi ni nv = record {
  there =
      λ j w e. ground (arith, lookup-put j i v t.if_vif, lookup-put w v i t.vif_if, h.there j w);
  back = λ j w e. ground (arith, lookup-put j i v t.if_vif, lookup-put w v i t.vif_if, h.back j w);
  nonzero = NonZero-put i v t.if_vif hi h.nonzero;
}

delete-IsVifTable :
    (t : Interfaces) (i v : ℕ)
    → IsVifTable t
    → lookup i t.if_vif ≡ some v
    → IsVifTable (record t { if_vif = remove i t.if_vif; vif_if = remove v t.vif_if })
delete-IsVifTable t i v h e = record {
  there = λ j w ej. ground (
    arith,
    lookup-remove j i t.if_vif,
    lookup-remove w v t.vif_if,
    h.there j w,
    h.back j w,
    h.there i v,
    h.back i v,
  );
  back = λ j w ej. ground (
    arith,
    lookup-remove j i t.if_vif,
    lookup-remove w v t.vif_if,
    h.there j w,
    h.back j w,
    h.there i v,
    h.back i v,
  );
  nonzero = NonZero-remove i t.if_vif h.nonzero;
}

absent-IsVifTable :
    (t : Interfaces) (i : ℕ)
    → IsVifTable t
    → lookup i t.if_vif ≡ none
    → IsVifTable (record t { if_vif = remove i t.if_vif })
absent-IsVifTable t i h e = record {
  there = λ j w ej. ground (arith, lookup-remove j i t.if_vif, h.there j w);
  back = λ j w ej. ground (arith, lookup-remove j i t.if_vif, h.back j w);
  nonzero = NonZero-remove i t.if_vif h.nonzero;
}

with_call-IsVifTable :
    (c : RpFilterCall) (t : Interfaces) → IsVifTable t → IsVifTable (with_call c t)
with_call-IsVifTable c t h =
    let t' = record t { calls = c ∷ t.calls } in
    let h' : IsVifTable t' = record { there = h.there; back = h.back; nonzero = h.nonzero } in
    if-holds IsVifTable t.reset_reverse_path_filter t' t h' h

insert_interface-IsVifTable :
    (i v : ℕ) (t : Interfaces)
    → IsVifTable t
    → i ≢ 0
    → ((j : ℕ) → lookup j t.if_vif ≢ some v)
    → IsVifTable (insert_interface i v t).1
unfolding insert_interface
insert_interface-IsVifTable i v t h hi free = go (lookup i t.if_vif) (lookup v t.vif_if) refl refl
  where
    t1 : Interfaces
    t1 = record t { if_vif = put i v t.if_vif }

    result : Option ℕ → Option ℕ → Bool × Interfaces
    result o q = elim o [
      | some w ↦ (true, t)
      | none ↦ elim q [
        | some j ↦ (false, t1)
        | none ↦ (true, with_call (reset_rp_filter i) (record t1 { vif_if = put v i t.vif_if }))
      ]
    ]

    go :
        (o q : Option ℕ) → lookup i t.if_vif ≡ o → lookup v t.vif_if ≡ q → IsVifTable (result o q).1
    go (some w) q eo eq = h
    go none (some j) eo eq = absurd (free j (h.back j v eq))
    go none none eo eq =
        with_call-IsVifTable (reset_rp_filter i) _ (put_both-IsVifTable t i v h hi eo eq)

del_interface-IsVifTable :
    (i : ℕ) (t : Interfaces) → IsVifTable t → IsVifTable (del_interface i t).1
unfolding del_interface get_virtual_if_index
del_interface-IsVifTable i t h =
    if-holds (λ (r : Bool × Interfaces). IsVifTable r.1) (i == 0) (false, t) _ h
      (with_call-IsVifTable (restore_rp_filter i) _ (go (lookup i t.if_vif) refl))
  where
    go :
        (o : Option ℕ)
        → lookup i t.if_vif ≡ o
        → IsVifTable (record t {
          vif_if = elim o as (λ _. List (ℕ × ℕ)) [ none ↦ t.vif_if | some v ↦ remove v t.vif_if ];
          if_vif = remove i t.if_vif;
        })
    go none e = absent-IsVifTable t i h e
    go (some v) e = delete-IsVifTable t i v h e

-- The calls of the public operations, with whether an interface is up.
pub data VifCall : Type 0 where
  adds : (ℕ → Bool) → ℕ → VifCall
  deletes : ℕ → VifCall

-- No interface has the index zero.
abbrev pub HasZeroDown : VifCall → Type 0
HasZeroDown (adds is_up i) = is_up 0 ≡ false
HasZeroDown (deletes i) = Unit {0}

module _ (maxvifs maxmifs : ℕ) where
  add_interface-IsVifTable :
      (is_up : ℕ → Bool) (i : ℕ) (t : Interfaces)
      → is_up 0 ≡ false
      → IsVifTable t
      → IsVifTable (add_interface maxvifs maxmifs is_up i t).1
  unfolding add_interface
  add_interface-IsVifTable is_up i t h0 h = go (get_free_vif_number maxvifs maxmifs t) refl
    where
      go :
          (o : Option ℕ)
          → get_free_vif_number maxvifs maxmifs t ≡ o
          → IsVifTable
              (elim o as (λ _. Bool × Interfaces) [
                | none ↦ (false, t)
                | some vif ↦ if is_up i then insert_interface i vif t else (false, t)
              ]).1
      go none e = h
      go (some vif) e = elim (Bool-cases (is_up i)) [
        | inl up ↦ rw up (
            insert_interface-IsVifTable i vif t h (λ z. absurd (ground (arith, z, up, h0)))
              λ j. get_free_vif_number-unused maxvifs maxmifs t j vif h.nonzero e)
        | inr down ↦ rw down h
      ]

  -- The calls of the public operations one after another.
  pub run_vifs : List VifCall → Interfaces → Interfaces
  run_vifs [] t = t
  run_vifs (adds is_up i ∷ l) t = run_vifs l (add_interface maxvifs maxmifs is_up i t).1
  run_vifs (deletes i ∷ l) t = run_vifs l (del_interface i t).1

  run_vifs-from :
      (l : List VifCall) (t : Interfaces)
      → All HasZeroDown l
      → IsVifTable t
      → IsVifTable (run_vifs l t)
  unfolding run_vifs
  run_vifs-from [] t hl h = h
  run_vifs-from (adds is_up i ∷ l) t hl h =
      run_vifs-from l _ hl.1 (add_interface-IsVifTable is_up i t hl.0 h)
  run_vifs-from (deletes i ∷ l) t hl h = run_vifs-from l _ hl.1 (del_interface-IsVifTable i t h)

  -- After any calls of `add_interface` and `del_interface` on the maps that are empty at first, where no
  -- interface has the index zero, the two maps are inverse to each other: an interface has the virtual
  -- number that leads back to it, and no two interfaces have the same one.
  pub run_vifs-IsVifTable :
      (family : Family) (reset : Bool) (l : List VifCall)
      → All HasZeroDown l
      → IsVifTable (run_vifs l (new_interfaces family reset))
  unfolding new_interfaces lookup
  run_vifs-IsVifTable family reset l hl =
      run_vifs-from l (new_interfaces family reset) hl
        (record { there = λ i v e. cc; back = λ i v e. cc; nonzero = tt })
