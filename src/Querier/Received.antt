-- ===== src/Querier/Received.antt =====
-- `receive_record` of mcproxy/src/proxy/querier.cpp on the whole membership database.
use mcproxy.Base.{
  ◌≡◌, refl, sym, subst, ◌∙◌, inl, inr, Bool, true, false, not, ◌&&◌, List, if◌then◌else◌,
  Bool-cases, some-inj,
}
use mcproxy.SourceList.{find?}
use mcproxy.Protocol.{
  is_older_or_equal_version, is_newest_version, GroupMemProtocol, RecordType, include_mode,
  exclude_mode, mode_is_include, mode_is_exclude, change_to_include_mode, change_to_exclude_mode,
  allow_new_sources, block_old_sources, unknown_record,
}
use mcproxy.Message.{Source, GroupRecord}
use mcproxy.Membership.{is_in_backward_compatibility_mode, GaddrInfo}
use mcproxy.World.{World}
use mcproxy.Querier.Records.{
  receive_record_in_include_mode, find_or_insert, coordinate_compatibility, effective_slist,
  is_ignored, store, store_used, process_record, receive_record, Querier,
}
use mcproxy.Querier.Table.{AddrSet, include_row, exclude_row, rfc_table, members, view, RouterState}
use mcproxy.Querier.Invariant.{IsValid, IsFresh}
use mcproxy.Querier.IncludeTable.{include-Table}
use mcproxy.Querier.ExcludeTable.{exclude-Table}
use mcproxy.Querier.IncludeValid.{include-IsValid}
use mcproxy.Querier.ExcludeValid.{exclude-IsValid}
use mcproxy.Querier.Outcomes.{
  IsValidDb, state_of, find_or_insert-IsValid, store-Outcome, store_used-Outcome, McFilter-cases,
  Returns, Outcome,
}

rfc_table-include :
    (t : RecordType) (a : AddrSet) (r : RouterState)
    → r.mode ≡ include_mode
    → include_row t a r ≡ rfc_table t a r
rfc_table-include t a r m = rw m refl

rfc_table-exclude :
    (t : RecordType) (a : AddrSet) (r : RouterState)
    → r.mode ≡ exclude_mode
    → exclude_row t a r ≡ rfc_table t a r
rfc_table-exclude t a r m = rw m refl

module _ (q : Querier) (gr : GroupRecord) (l : List Source) (g : GaddrInfo) (w : World)
    (v : IsValid g) (f : IsFresh l) where
  process_include :
      g.filter_mode ≡ include_mode
      → Returns q
          (process_record q gr l (g, w))
          gr.gaddr
          (rfc_table gr.record_type (members l) (view g))
  unfolding process_record
  process_include m =
      let p = receive_record_in_include_mode w gr.record_type gr.gaddr l g in
      let e = include-Table w gr.gaddr l g v.include_sorted f.sorted gr.record_type m in
      let v' = include-IsValid w gr.gaddr l g v f m gr.record_type in
      let o = store_used-Outcome q gr.gaddr p.0 p.1 v' in
      (
        store_used q gr.gaddr p,
        simp m refl,
        subst (Outcome q (store_used q gr.gaddr p) gr.gaddr)
            (e ∙ rfc_table-include gr.record_type (members l) (view g) m) o,
      )

  process_exclude :
      g.filter_mode ≡ exclude_mode
      → Returns q
          (process_record q gr l (g, w))
          gr.gaddr
          (rfc_table gr.record_type (members l) (view g))
  unfolding process_record
  process_exclude m =
      let (p, e, t) = exclude-Table w gr.gaddr l g v f.sorted m gr.record_type in
      let (p', e', v') = exclude-IsValid w gr.gaddr l g v f m gr.record_type in
      let v'' : IsValid p.0 = subst (λ z. IsValid (z.0)) (some-inj (sym e' ∙ e)) v' in
      let o = store-Outcome q gr.gaddr p.0 p.1 v'' in
      (
        store q gr.gaddr p,
        simp m rw e refl,
        subst (Outcome q (store q gr.gaddr p) gr.gaddr)
            (t ∙ rfc_table-exclude gr.record_type (members l) (view g) m) o,
      )

  pub process_record_lem :
      Returns q
        (process_record q gr l (g, w))
        gr.gaddr
        (rfc_table gr.record_type (members l) (view g))
  process_record_lem = elim (McFilter-cases g.filter_mode) [
    | inl m ↦ process_include m
    | inr m ↦ process_exclude m
  ]

abbrev is_older : GroupRecord → GroupMemProtocol → Bool
is_older gr mode =
    not (is_newest_version gr.grp_mem_proto) && is_older_or_equal_version gr.grp_mem_proto mode

-- The answer to an older report changes neither the lists nor the timers of the sources.
coordinate_compatibility-view :
    (w : World) (mode : GroupMemProtocol) (gr : GroupRecord) (g : GaddrInfo)
    → view (coordinate_compatibility w mode gr g).0 ≡ view g
unfolding coordinate_compatibility
coordinate_compatibility-view w mode gr g = elim (Bool-cases (is_older gr mode)) [
  | inl e ↦ rw e refl
  | inr e ↦ rw e refl
]

coordinate_compatibility-IsValid :
    (w : World) (mode : GroupMemProtocol) (gr : GroupRecord) (g : GaddrInfo)
    → IsValid g
    → IsValid (coordinate_compatibility w mode gr g).0
unfolding coordinate_compatibility
coordinate_compatibility-IsValid w mode gr g v = elim (Bool-cases (is_older gr mode)) [
  | inl e ↦ rw e record {
    sets = v.sets;
    timed = v.timed;
    filter_timed = v.filter_timed;
    none_excluded = v.none_excluded;
  }
  | inr e ↦ rw e v
]

effective_slist-IsFresh :
    (c : Bool) (t : RecordType) (l : List Source) → IsFresh l → IsFresh (effective_slist c t l)
unfolding effective_slist find?
effective_slist-IsFresh false t l f = f
effective_slist-IsFresh true allow_new_sources l f = f
effective_slist-IsFresh true block_old_sources l f = f
effective_slist-IsFresh true change_to_exclude_mode l f = record {
  sorted = tt;
  untouched = λ j. tt;
}
effective_slist-IsFresh true change_to_include_mode l f = f
effective_slist-IsFresh true mode_is_exclude l f = f
effective_slist-IsFresh true mode_is_include l f = f
effective_slist-IsFresh true (unknown_record n) l f = f

-- The group's entry as `receive_record` takes it up, and whether that is in compatibility mode.
abbrev pub taken_up : Querier → GroupRecord → GaddrInfo × World
taken_up q gr =
    coordinate_compatibility q.world q.db.querier_version_mode gr (find_or_insert q.db gr.gaddr)

abbrev pub is_compatible : Querier → GroupRecord → Bool
is_compatible q gr = is_in_backward_compatibility_mode (taken_up q gr).0

-- What the tables say of a record, less what backward compatibility ignores.
abbrev pub answer : Querier → GroupRecord → RouterState
answer q gr =
    let before = state_of q.db gr.gaddr in
    let heard = members (effective_slist (is_compatible q gr) gr.record_type gr.slist) in
    if is_ignored (is_compatible q gr) gr.record_type
    then before
    else rfc_table gr.record_type heard before

module _ (q : Querier) (gr : GroupRecord) (v : IsValidDb q.db) (f : IsFresh gr.slist) where
  taken_up-IsValid : IsValid (taken_up q gr).0
  taken_up-IsValid =
      coordinate_compatibility-IsValid q.world q.db.querier_version_mode gr
        (find_or_insert q.db gr.gaddr) (find_or_insert-IsValid q.db gr.gaddr v)

  taken_up-view : view (taken_up q gr).0 ≡ state_of q.db gr.gaddr
  taken_up-view =
      coordinate_compatibility-view q.world q.db.querier_version_mode gr
        (find_or_insert q.db gr.gaddr)

  heard-Returns :
      let l = effective_slist (is_compatible q gr) gr.record_type gr.slist in
      Returns q
        (process_record q gr l (taken_up q gr))
        gr.gaddr
        (rfc_table gr.record_type (members l) (state_of q.db gr.gaddr))
  heard-Returns =
      let l = effective_slist (is_compatible q gr) gr.record_type gr.slist in
      let p =
        process_record_lem q gr l (taken_up q gr).0 (taken_up q gr).1 taken_up-IsValid
          (effective_slist-IsFresh (is_compatible q gr) gr.record_type gr.slist f) in
      subst
        (λ r.
          Returns q (process_record q gr l (taken_up q gr)) gr.gaddr
            (rfc_table gr.record_type (members l) r))
        taken_up-view p

  pub receive_record-Returns : Returns q (receive_record q gr) gr.gaddr (answer q gr)
  unfolding receive_record
  receive_record-Returns = elim (Bool-cases (is_ignored (is_compatible q gr) gr.record_type)) [
    | inl e ↦
        let g = (taken_up q gr).0 in
        let w = (taken_up q gr).1 in
        rw e (
          store q gr.gaddr (g, w),
          refl,
          subst (Outcome q (store q gr.gaddr (g, w)) gr.gaddr) taken_up-view
              (store-Outcome q gr.gaddr g w taken_up-IsValid),
        )
    | inr e ↦ rw e heard-Returns
  ]
