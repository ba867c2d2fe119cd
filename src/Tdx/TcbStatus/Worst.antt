-- ===== src/Tdx/TcbStatus/Worst.antt =====
-- What an accepted TCB status says of the levels that were matched.
use attestation_go.Base.{
  ℕ, ◌+◌, ◌<◌, ◌≡◌, ◌≢◌, ◌⊎◌, inl, inr, refl, sym, ap, ◌∙◌, arith, true, false, not, Option, none,
  some, List, [], ◌∷◌, ◌++◌, Bytes, codes, bytes_eq, bytes_eq_iff, contains, length, All, leb, ◌==◌,
  ok, bind-eq-ok, refuse_if-eq-ok, Bool-cases,
}
use attestation_go.Teetypes.Verdict.{TdxTcbStatus, revoked, DcapVerificationStatus}
use attestation_go.Tdx.TcbStatus.{
  unknown_status, needs_collateral, cannot_accept, not_accepted, tcb_status_order, parse_tcb_status,
  Options, check_each_status, check_accepted_tcb_statuses, TcbLevel, Evidence, match_tcb_levels,
  wrong_svn_width, match_platform_level, module_levels_of, level_or, first_level, no_qe_level,
  index_from, rank, is_worse, add_advisories, raise, fold_levels, evaluate_tcb_status,
}

is_worse_trans :
    (a b c : Option ℕ) → is_worse a b ≡ false → is_worse b c ≡ false → is_worse a c ≡ false
is_worse_trans none b c h k = refl
is_worse_trans (some x) none c h k = cc h
is_worse_trans (some x) (some y) none h k = cc k
is_worse_trans (some x) (some y) (some z) h k = ground arith

is_worse_refl : (a : Option ℕ) → is_worse a a ≡ false
is_worse_refl none = refl
is_worse_refl (some x) = ground arith

-- A level that the fold goes past: it and the worst before it are no worse than the worst after it.
raise-no_better :
    (l : TcbLevel) (w : Option ℕ) (s : TdxTcbStatus)
    → w ≡ rank s
    → ((raise l (w, s)).0 ≡ rank (raise l (w, s)).1)
      × (is_worse (rank l.status) (raise l (w, s)).0 ≡ false)
      × (is_worse w (raise l (w, s)).0 ≡ false)
      × (((raise l (w, s)).1 ≡ s) ⊎ ((raise l (w, s)).1 ≡ l.status))
raise-no_better l w s h = elim (Bool-cases (is_worse (rank l.status) w)) [
  | inl worse ↦
      rw worse
        (refl, is_worse_refl (rank l.status), is_worse-antisym (rank l.status) w worse, inr refl)
  | inr better ↦ rw better (h, better, is_worse_refl w, inl refl)
]
  where
    is_worse-antisym : (a b : Option ℕ) → is_worse a b ≡ true → is_worse b a ≡ false
    is_worse-antisym none b h = cc h
    is_worse-antisym (some x) none h = refl
    is_worse-antisym (some x) (some y) h = ground arith

-- A status that is accepted among the levels, and none of the levels is worse.
abbrev pub NoWorse : List TdxTcbStatus → TdxTcbStatus → Bytes × TcbLevel → Type 0
NoWorse accepted t l =
    (contains accepted l.1.status ≡ true) × (is_worse (rank l.1.status) (rank t) ≡ false)

fold_levels-NoWorse :
    (accepted : List TdxTcbStatus) (ls : List (Bytes × TcbLevel)) (w : Option ℕ) (s : TdxTcbStatus)
    (ids : List Bytes) {t : TdxTcbStatus} {all : List Bytes}
    → w ≡ rank s
    → fold_levels accepted ls (w, s) ids ≡ ok (t, all)
    → All (NoWorse accepted t) ls
      × (is_worse w (rank t) ≡ false)
      × ((t ≡ s) ⊎ (contains accepted t ≡ true))
unfolding fold_levels
fold_levels-NoWorse accepted [] w s ids {t} h e =
    let same : s ≡ t = cc e in (tt, rw (h, same) (is_worse_refl (rank t)), inl (sym same))
fold_levels-NoWorse accepted ((name, l) ∷ ls) w s ids {t} h e =
    let (taken, e1) =
      refuse_if-eq-ok (not (contains accepted l.status)) (not_accepted name l.status) e in
    let (ranked, level_below, worst_below, which) = raise-no_better l w s h in
    let (later, below, last) =
      fold_levels-NoWorse accepted ls (raise l (w, s)).0 (raise l (w, s)).1
        (add_advisories ids l.advisories) ranked e1 in
    let in_set : contains accepted l.status ≡ true = ground arith in
    (
      (
        (in_set, is_worse_trans (rank l.status) (raise l (w, s)).0 (rank t) level_below below),
        later,
      ),
      is_worse_trans w (raise l (w, s)).0 (rank t) worst_below below,
      elim last [
        | inl same ↦ elim which [
          | inl kept ↦ inl (same ∙ kept)
          | inr raised ↦ inr (rw (same ∙ raised) in_set)
        ]
        | inr there ↦ inr there
      ],
    )

index_from-ne-none :
    (i : ℕ) (xs : List Bytes) (s : Bytes) → contains xs s ≡ true → index_from i xs s ≢ none
unfolding index_from contains
index_from-ne-none i [] s h e = cc h
index_from-ne-none i (x ∷ xs) s h e = elim (Bool-cases (bytes_eq x s)) [
  | inl same ↦ cc (rw same at e)
  | inr other ↦ index_from-ne-none (i + 1) xs s (rw other at h) (rw other at e)
]

parse_tcb_status-known : (x : Bytes) {y : TdxTcbStatus} → parse_tcb_status x ≡ ok y → rank x ≢ none
unfolding parse_tcb_status rank
parse_tcb_status-known x h =
    let (known, _) = refuse_if-eq-ok (not (contains tcb_status_order x)) (unknown_status x) h in
    index_from-ne-none 0 tcb_status_order x (ground arith)

check_each_status_sound :
    (ss : List TdxTcbStatus) (s : TdxTcbStatus)
    → check_each_status ss ≡ ok tt
    → contains ss s ≡ true
    → (rank s ≢ none) × (s ≢ revoked)
unfolding check_each_status contains
check_each_status_sound [] s h there = cc there
check_each_status_sound (x ∷ xs) s h there =
    let (_, known, h1) = bind-eq-ok (parse_tcb_status x) _ h in
    let (taken, h2) = refuse_if-eq-ok (bytes_eq x revoked) (cannot_accept x) h1 in
    elim (Bool-cases (bytes_eq x s)) [
      | inl e ↦
          let same : x ≡ s = (bytes_eq_iff x s).0 e in
          (
            rw (← same) (parse_tcb_status-known x known),
            λ bad. cc (sym taken ∙ (bytes_eq_iff x revoked).1 (same ∙ bad)),
          )
      | inr other ↦ check_each_status_sound xs s h2 (rw other at there)
    ]

worse_than_none : (o : Option ℕ) → o ≢ none → is_worse o none ≢ false
worse_than_none none known h = absurd (known refl)
worse_than_none (some r) known h = cc h

rank-empty : none ≡ rank []
unfolding rank index_from bytes_eq
rank-empty = refl

first_is_platform :
    (e : Evidence) {levels : List (Bytes × TcbLevel)}
    → match_tcb_levels e ≡ ok levels
    → (p : TcbLevel) × (rest : List (Bytes × TcbLevel)) × (levels ≡ (codes "platform", p) ∷ rest)
unfolding match_tcb_levels
first_is_platform e {levels} h =
    let (_, h1) =
      refuse_if-eq-ok (not (length e.tee_tcb_svn == 16)) (wrong_svn_width (length e.tee_tcb_svn))
        h in
    let (p, _, h2) = bind-eq-ok (match_platform_level e.platform_levels e.tee_tcb_svn e.pck) _ h1 in
    let (m, _, h3) = bind-eq-ok (module_levels_of e) _ h2 in
    let (qe, _, h4) =
      bind-eq-ok
        (level_or (first_level (λ l. leb l.isvsvn e.qe_isv_svn) e.qe_levels)
          (no_qe_level e.qe_isv_svn))
        _ h3 in
    let same : (codes "platform", p) ∷ m ++ (codes "QE", qe) ∷ [] ≡ levels = cc h4 in
    (p, m ++ (codes "QE", qe) ∷ [], sym same)

-- With a configuration that checkAcceptedTCBStatuses passes and that names at least one status, an accepted
-- evaluation has matched levels; the status of each of them is accepted and ranks no worse than the reported
-- one, which is accepted and is not Revoked.
pub evaluate_tcb_status_sound :
    (opts : Options) (e : Evidence) {reported : DcapVerificationStatus}
    → check_accepted_tcb_statuses opts ≡ ok tt
    → 0 < length opts.accepted_tcb_statuses
    → evaluate_tcb_status e opts.accepted_tcb_statuses ≡ ok reported
    → (levels : List (Bytes × TcbLevel)) × (match_tcb_levels e ≡ ok levels)
      × All (NoWorse opts.accepted_tcb_statuses reported.tcb_status) levels
      × (contains opts.accepted_tcb_statuses reported.tcb_status ≡ true)
      × (reported.tcb_status ≢ revoked)
unfolding evaluate_tcb_status check_accepted_tcb_statuses
evaluate_tcb_status_sound opts e {reported} configured some_status h =
    let (levels, matched, h1) = bind-eq-ok (match_tcb_levels e) _ h in
    let ((t, ids), folded, h2) =
      bind-eq-ok (fold_levels opts.accepted_tcb_statuses levels (none, []) []) _ h1 in
    let record_eq : record {
      tcb_status = t;
      fmspc = e.evidence_fmspc;
      advisory_ids = ids;
      collateral_expired = false;
    }
        ≡ reported =
      cc h2 in
    let same : t ≡ reported.tcb_status =
      ap (λ (x : DcapVerificationStatus). x.tcb_status) record_eq in
    let (no_worse, _, last) =
      fold_levels-NoWorse opts.accepted_tcb_statuses levels none [] [] rank-empty folded in
    let (p, rest, split) = first_is_platform e matched in
    let first = (rw split at no_worse).0 in
    let none_set : (length opts.accepted_tcb_statuses == 0) ≡ false = ground arith in
    let (_, valid) =
      refuse_if-eq-ok (not opts.get_collateral) needs_collateral (rw none_set at configured) in
    let (known, _) = check_each_status_sound opts.accepted_tcb_statuses p.status valid first.0 in
    elim last [
      | inl empty ↦
          absurd (worse_than_none (rank p.status) known (rw (empty, ← rank-empty) at first.1))
      | inr there ↦
          let (_, not_revoked) = check_each_status_sound opts.accepted_tcb_statuses t valid there in
          rw (← same) (levels, matched, no_worse, there, not_revoked)
    ]
