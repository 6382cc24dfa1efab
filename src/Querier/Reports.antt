-- ===== src/Querier/Reports.antt =====
-- What `receive_record` of mcproxy/src/proxy/querier.cpp does to the whole membership database.
use mcproxy.Base.{
  ℕ, ◌≡◌, refl, sym, subst, ◌∙◌, ◌≢◌, inl, inr, true, false, not, ◌&&◌, some, List, arith, ◌==◌,
  if◌then◌else◌, ==_iff, Bool-cases,
}
use mcproxy.SourceList.{find?, contains}
use mcproxy.MapOf.{lookup}
use mcproxy.Protocol.{
  is_older_or_equal_version, is_newest_version, GroupMemProtocol, RecordType, mode_is_include,
  mode_is_exclude, change_to_include_mode, change_to_exclude_mode, allow_new_sources,
  block_old_sources, unknown_record,
}
use mcproxy.Message.{Source, GroupRecord}
use mcproxy.Membership.{is_in_backward_compatibility_mode}
use mcproxy.Querier.Records.{
  find_or_insert, coordinate_compatibility, effective_slist, is_ignored, receive_record, Querier,
}
use mcproxy.Querier.Table.{AddrSet, rfc_table, members, RouterState}
use mcproxy.Querier.Invariant.{IsFresh}
use mcproxy.Querier.Outcomes.{IsValidDb, state_of, Outcome}
use mcproxy.Querier.Received.{is_compatible, answer, receive_record-Returns}

pub Outcome-IsValidDb :
    (q q' : Querier) (gaddr : ℕ) (r : RouterState)
    → IsValidDb q.db
    → Outcome q q' gaddr r
    → IsValidDb q'.db
Outcome-IsValidDb q q' gaddr r v o k g e = elim (Bool-cases (k == gaddr)) [
  | inl h ↦
      o.entry_valid g (subst (λ j. lookup j q'.db.group_info ≡ some g) ((==_iff k gaddr).0 h) e)
  | inr h ↦ v k g (sym (o.others k (λ p. absurd (ground (arith, h, p)))) ∙ e)
]

-- From a database of valid entries `receive_record` reads no null pointer, whatever the record's
-- type and protocol, if its source list is a set of sources without timers: it returns, and every
-- entry of the database it leaves is valid.
pub receive_record-IsValidDb :
    (q : Querier) (gr : GroupRecord)
    → IsValidDb q.db
    → IsFresh gr.slist
    → (q' : Querier) × (receive_record q gr ≡ some q') × IsValidDb q'.db
receive_record-IsValidDb q gr v f =
    let (q', e, o) = receive_record-Returns q gr v f in
    (q', e, Outcome-IsValidDb q q' gr.gaddr (answer q gr) v o)

-- The tables in backward compatibility mode (RFC 3376 section 7.3.2, RFC 3810 section 8.3.2).
abbrev pub compatible_row : RecordType → AddrSet → RouterState → RouterState
compatible_row block_old_sources a r = r
compatible_row change_to_exclude_mode a r = rfc_table change_to_exclude_mode (λ j. false) r
compatible_row t a r = rfc_table t a r

-- The compatibility mode of the record's group once the record is heard.
abbrev pub mode_after : Querier → GroupRecord → GroupMemProtocol
mode_after q gr =
    if not (is_newest_version gr.grp_mem_proto)
      && is_older_or_equal_version gr.grp_mem_proto q.db.querier_version_mode
    then gr.grp_mem_proto
    else (find_or_insert q.db gr.gaddr).compatibility_mode_variable

-- The router state that the RFCs ask for.
abbrev pub expected : Querier → GroupRecord → RouterState
expected q gr =
    let before = state_of q.db gr.gaddr in
    if is_newest_version (mode_after q gr)
    then rfc_table gr.record_type (members gr.slist) before
    else compatible_row gr.record_type (members gr.slist) before

compatible_answer :
    (t : RecordType) (l : List Source) (r : RouterState)
    → (if is_ignored true t then r else rfc_table t (members (effective_slist true t l)) r)
      ≡ compatible_row t (members l) r
unfolding is_ignored effective_slist contains find?
compatible_answer mode_is_include l r = refl
compatible_answer mode_is_exclude l r = refl
compatible_answer change_to_include_mode l r = refl
compatible_answer change_to_exclude_mode l r = refl
compatible_answer allow_new_sources l r = refl
compatible_answer block_old_sources l r = refl
compatible_answer (unknown_record n) l r = refl

newest_answer :
    (t : RecordType) (l : List Source) (r : RouterState)
    → (if is_ignored false t then r else rfc_table t (members (effective_slist false t l)) r)
      ≡ rfc_table t (members l) r
unfolding is_ignored effective_slist
newest_answer t l r = refl

is_compatible_lem :
    (q : Querier) (gr : GroupRecord)
    → is_compatible q gr ≡ not (is_newest_version (mode_after q gr))
unfolding coordinate_compatibility is_in_backward_compatibility_mode
is_compatible_lem q gr = ground arith

answer_lem : (q : Querier) (gr : GroupRecord) → answer q gr ≡ expected q gr
answer_lem q gr = elim (Bool-cases (is_newest_version (mode_after q gr))) [
  | inl e ↦ rw (is_compatible_lem q gr, e) (newest_answer gr.record_type gr.slist _)
  | inr e ↦ rw (is_compatible_lem q gr, e) (compatible_answer gr.record_type gr.slist _)
]

-- From a database of valid entries and for a record whose source list is a set of sources without
-- timers, `receive_record` returns, and the router state of the record's group is then what the
-- tables of RFC 3376 section 6.4 and RFC 3810 section 7.4 give for the old state and the record's
-- sources; in backward compatibility mode a BLOCK record leaves the state as it was and a TO_EX
-- record counts as one with no sources. A group with no entry is in state INCLUDE of no source. No
-- other group's entry changes.
pub receive_record-Table :
    (q : Querier) (gr : GroupRecord)
    → IsValidDb q.db
    → IsFresh gr.slist
    → (q' : Querier) × (receive_record q gr ≡ some q')
      × (state_of q'.db gr.gaddr ≡ expected q gr)
      × ((k : ℕ) → k ≢ gr.gaddr → lookup k q'.db.group_info ≡ lookup k q.db.group_info)
receive_record-Table q gr v f =
    let (q', e, o) = receive_record-Returns q gr v f in
    (q', e, o.reached ∙ answer_lem q gr, o.others)
