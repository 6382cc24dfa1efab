-- ===== src/Querier/IncludeValid.antt =====
-- `receive_record_in_include_mode` of mcproxy/src/proxy/querier.cpp keeps an entry valid.
use mcproxy.Base.{ℕ, ◌≡◌, refl, subst, ◌∙◌, inl, inr, false, List, [], ◌∷◌, arith}
use mcproxy.SourceList.{erase, inter, diff}
use mcproxy.Protocol.{
  RecordType, include_mode, mode_is_include, mode_is_exclude, change_to_include_mode,
  change_to_exclude_mode, allow_new_sources, block_old_sources, unknown_record,
}
use mcproxy.Message.{key, Source}
use mcproxy.Membership.{GaddrInfo}
use mcproxy.World.{World}
use mcproxy.Querier.Actions.{mali_group, mali_sources, send_q_sources}
use mcproxy.Querier.Records.{receive_record_in_include_mode}
use mcproxy.Querier.Effects.{send_q_sources-Frame}
use mcproxy.Querier.Invariant.{Timed, AreSets, IsValid, IsFresh}
use mcproxy.Querier.IncludeTable.{excluding, including}
use mcproxy.Querier.Timed.{Timed-mali_sources, send_q_sources_timed, Timed-inter}
use mcproxy.Querier.Lists.{
  AreSets-allow, AreSets-exclude, AreSets-mali_sources, AreSets-send_q_sources, Timed-union,
}

diff-nil : (b : List Source) → diff key [] b ≡ []
unfolding diff erase
diff-nil [] = refl
diff-nil (s ∷ b) = diff-nil b

module _ (w : World) (gaddr : ℕ) (b : List Source) (g : GaddrInfo) (v : IsValid g) (f : IsFresh b)
    (m : g.filter_mode ≡ include_mode) where
  -- `A += B` and nothing excluded.
  allowed : AreSets (including b g).include_requested_list g.exclude_list
  allowed =
      let none_left : diff key g.exclude_list b ≡ g.exclude_list =
        rw (v.none_excluded m) (diff-nil b) in
      subst (AreSets (including b g).include_requested_list) none_left
        (AreSets-allow g.include_requested_list g.exclude_list b v.sets)

  -- ALLOW, and IS_IN, which does the same.
  allow-IsValid : IsValid (record g {
    include_requested_list = (mali_sources w gaddr (including b g).include_requested_list b).0;
  })
  allow-IsValid = record {
    sets =
        AreSets-mali_sources w gaddr (including b g).include_requested_list g.exclude_list b
          allowed;
    timed =
        Timed-mali_sources w gaddr (including b g).include_requested_list b
          (λ j. Timed-union j g.include_requested_list b v.include_sorted v.timed);
    filter_timed = λ e. v.filter_timed e;
    none_excluded = λ e. v.none_excluded e;
  }

  excluded-sets : AreSets (excluding b g).include_requested_list (excluding b g).exclude_list
  excluded-sets = AreSets-exclude g.include_requested_list g.exclude_list b v.sets f

  excluded-Timed : Timed (excluding b g).include_requested_list
  excluded-Timed = Timed-inter g.include_requested_list b v.include_sorted f.sorted v.timed

  to_ex-IsValid : IsValid (receive_record_in_include_mode w change_to_exclude_mode gaddr b g).0
  unfolding receive_record_in_include_mode mali_group
  to_ex-IsValid =
      let tmp = inter key (excluding b g).include_requested_list b in
      let fr = send_q_sources-Frame w gaddr (excluding b g) tmp false in
      record {
        sets =
            rw fr.same_exclude
              (AreSets-send_q_sources w gaddr (excluding b g) tmp false excluded-sets);
        timed =
            λ j. send_q_sources_timed w gaddr (excluding b g) tmp false j (inl (excluded-Timed j));
        filter_timed = λ e. refl;
        none_excluded = λ e. absurd (ground (arith, fr.same_mode));
      }

  to_in-IsValid : IsValid (receive_record_in_include_mode w change_to_include_mode gaddr b g).0
  unfolding receive_record_in_include_mode
  to_in-IsValid =
      let tmp = diff key (including b g).include_requested_list b in
      let fr = send_q_sources-Frame w gaddr (including b g) tmp false in
      let q = send_q_sources w gaddr (including b g) tmp false in
      record {
        sets = rw fr.same_exclude (
            AreSets-mali_sources q.1 gaddr q.0.include_requested_list g.exclude_list b
              (AreSets-send_q_sources w gaddr (including b g) tmp false allowed));
        timed = Timed-mali_sources q.1 gaddr q.0.include_requested_list b (λ j.
            elim (Timed-union j g.include_requested_list b v.include_sorted v.timed) [
              | inl h ↦ inl (send_q_sources_timed w gaddr (including b g) tmp false j (inl h))
              | inr e ↦ inr e
            ]);
        filter_timed = λ e. absurd (ground (arith, fr.same_mode));
        none_excluded = λ e. fr.same_exclude ∙ v.none_excluded m;
      }

  block-IsValid : IsValid (receive_record_in_include_mode w block_old_sources gaddr b g).0
  unfolding receive_record_in_include_mode
  block-IsValid =
      let tmp = inter key g.include_requested_list b in
      let fr = send_q_sources-Frame w gaddr g tmp false in
      record {
        sets = rw fr.same_exclude (AreSets-send_q_sources w gaddr g tmp false v.sets);
        timed = λ j. send_q_sources_timed w gaddr g tmp false j (inl (v.timed j));
        filter_timed = λ e. absurd (ground (arith, fr.same_mode));
        none_excluded = λ e. fr.same_exclude ∙ v.none_excluded m;
      }

  pub include-IsValid :
      (type : RecordType) → IsValid (receive_record_in_include_mode w type gaddr b g).0
  unfolding receive_record_in_include_mode mali_group
  include-IsValid allow_new_sources = allow-IsValid
  include-IsValid mode_is_include = allow-IsValid
  include-IsValid block_old_sources = block-IsValid
  include-IsValid change_to_exclude_mode = to_ex-IsValid
  include-IsValid change_to_include_mode = to_in-IsValid
  include-IsValid mode_is_exclude = record {
    sets = excluded-sets;
    timed = excluded-Timed;
    filter_timed = λ e. refl;
    none_excluded = λ e. absurd (ground arith);
  }
  include-IsValid (unknown_record n) = v
