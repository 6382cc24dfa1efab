-- ===== src/Worker/Callbacks.antt =====
-- mcproxy/src/proxy/querier.cpp: where the handler of a record makes its callback.
use mathlib.Core.Option
use mcproxy.Base.{◌≡◌, refl, Bool, true, false, Option, some, List, if◌then◌else◌, is_some}
use mcproxy.Protocol.{McFilter, include_mode, exclude_mode}
use mcproxy.Message.{Source, GroupRecord}
use mcproxy.Membership.{is_in_backward_compatibility_mode, GaddrInfo}
use mcproxy.World.{World}
use mcproxy.Querier.Records.{
  receive_record_in_include_mode, receive_record_in_exclude_mode, find_or_insert,
  coordinate_compatibility, effective_slist, is_ignored, store, store_used, process_record,
  receive_record, Querier,
}
use mcproxy.Worker.{notify_record, notifying_querier}

notify_record-is_some :
    (q : Querier) (gr : GroupRecord) (slist : List Source) (p : GaddrInfo × World)
    → is_some (notify_record q gr slist p) ≡ is_some (process_record q gr slist p)
unfolding notify_record process_record
notify_record-is_some q gr slist p =
    go p.0.filter_mode (receive_record_in_include_mode p.1 gr.record_type gr.gaddr slist p.0) (
      Option.map (store q gr.gaddr)
        (receive_record_in_exclude_mode p.1 gr.record_type gr.gaddr slist p.0))
  where
    go :
        (m : McFilter) (included : GaddrInfo × World) (excluded : Option Querier)
        → is_some (elim m as (λ _. Option Querier) [
          | include_mode ↦ some (store q gr.gaddr included)
          | exclude_mode ↦ excluded
        ])
          ≡ is_some (elim m as (λ _. Option Querier) [
            | include_mode ↦ some (store_used q gr.gaddr included)
            | exclude_mode ↦ excluded
          ])
    go include_mode included excluded = refl
    go exclude_mode included excluded = refl

same-if :
    (b : Bool) (x y z : Option Querier)
    → is_some y ≡ is_some z
    → is_some (if b then x else y) ≡ is_some (if b then x else z)
same-if true x y z h = refl
same-if false x y z h = h

-- The callback is reached exactly where the handler of the record returns.
pub notifying_querier-is_some :
    (q : Querier) (gr : GroupRecord)
    → is_some (notifying_querier q gr) ≡ is_some (receive_record q gr)
unfolding notifying_querier receive_record
notifying_querier-is_some q gr =
    let p =
      coordinate_compatibility q.world q.db.querier_version_mode gr
        (find_or_insert q.db gr.gaddr) in
    let compatible = is_in_backward_compatibility_mode p.0 in
    let slist = effective_slist compatible gr.record_type gr.slist in
    same-if (is_ignored compatible gr.record_type) (some (store q gr.gaddr p))
      (notify_record q gr slist p) (process_record q gr slist p)
      (notify_record-is_some q gr slist p)
