-- ===== src/Tdx/TcbStatus.antt =====
-- attestation/tdx/tcbstatus.go: the TCB levels that a verified quote meets, and their status. The quote,
-- the PCK certificate's extensions and the collateral are read by other packages; the records hold the
-- fields of them that this file reads.
pub mod Worst
use attestation_go.Base.{
  ℕ, zero, suc, ◌+◌, Bool, true, false, not, ◌&&◌, ◌||◌, Option, none, some, List, [], ◌∷◌, ◌++◌,
  Bytes, codes, bytes_eq, contains, length, drop, get_elem?, ltb, leb, ◌==◌, if◌then◌else◌, Result,
  ok, err, ◌>>=◌, ◌>>◌, refuse_if,
}
use attestation_go.Teetypes.Digest.{hex_encode}
use attestation_go.Teetypes.Verdict.{
  TdxTcbStatus, up_to_date, sw_hardening_needed, configuration_needed,
  configuration_and_sw_hardening_needed, out_of_date, out_of_date_configuration_needed, revoked,
  DcapVerificationStatus,
}

pub data TcbError : Type 0 where
  unknown_status : Bytes → TcbError
  needs_collateral : TcbError
  cannot_accept : TdxTcbStatus → TcbError
  wrong_svn_width : ℕ → TcbError
  no_platform_level : TcbError
  no_module_level no_module_identity : Bytes → TcbError
  no_qe_level : ℕ → TcbError
  not_accepted : Bytes → TdxTcbStatus → TcbError

-- tcbStatusOrder
abbrev pub tcb_status_order : List TdxTcbStatus
tcb_status_order =
    up_to_date ∷ sw_hardening_needed ∷ configuration_needed ∷ configuration_and_sw_hardening_needed
    ∷ out_of_date ∷ out_of_date_configuration_needed ∷ revoked ∷ []

-- ParseTCBStatus
unfoldable pub parse_tcb_status : Bytes → Result TcbError TdxTcbStatus
unfolding contains
parse_tcb_status s = refuse_if (not (contains tcb_status_order s)) (unknown_status s) >> ok s

-- The fields of Options that checkAcceptedTCBStatuses reads.
pub record Options : Type 0 where
  pub accepted_tcb_statuses : List TdxTcbStatus
  pub get_collateral : Bool

check_each_status : List TdxTcbStatus → Result TcbError (Unit {0})
check_each_status [] = ok tt
check_each_status (s ∷ ss) = do
  _ ← parse_tcb_status s
  refuse_if (bytes_eq s revoked) (cannot_accept s)
  check_each_status ss

-- checkAcceptedTCBStatuses
unfoldable pub check_accepted_tcb_statuses : Options → Result TcbError (Unit {0})
unfolding check_each_status
check_accepted_tcb_statuses opts =
    if length opts.accepted_tcb_statuses == 0
    then ok tt
    else (refuse_if (not opts.get_collateral) needs_collateral
        >> check_each_status opts.accepted_tcb_statuses)

-- pcs.TcbLevel: the SVNs of its components, its PCESVN and ISVSVN, its status and its advisories.
pub record TcbLevel : Type 0 where
  pub sgx_tcbcomponents : List ℕ
  pub tdx_tcbcomponents : List ℕ
  pub pcesvn : ℕ
  pub isvsvn : ℕ
  pub status : TdxTcbStatus
  pub advisories : List Bytes

-- pcs.TdxModuleIdentity
pub record TdxModuleIdentity : Type 0 where
  pub id : Bytes
  pub module_levels : List TcbLevel

-- pcs.PckCertTCB
pub record PckCertTcb : Type 0 where
  pub cpu_svn_components : List ℕ
  pub pce_svn : ℕ

-- firstLevel
unfoldable pub first_level : (TcbLevel → Bool) → List TcbLevel → Option TcbLevel
first_level p [] = none
first_level p (l ∷ ls) = let rest = first_level p ls in if p l then some l else rest

-- Each SVN is at least the level's; the code has compared the widths before.
unfoldable pub all_at_least : List ℕ → List ℕ → Bool
all_at_least (x ∷ xs) (y ∷ ys) = leb y x && all_at_least xs ys
all_at_least _ _ = true

-- TEE_TCB_SVN[i], of a value of 16 bytes.
abbrev svn_at : Bytes → ℕ → ℕ
svn_at s i = elim (get_elem? s i) [ none ↦ 0 | some b ↦ b ]

-- 2 when SVNs 0 and 1 are the module's, else 0.
abbrev pub first_svn : Bytes → ℕ
first_svn tee = if ltb 0 (svn_at tee 1) then 2 else 0

-- The test of matchPlatformLevel.
unfoldable pub meets_platform : Bytes → PckCertTcb → TcbLevel → Bool
unfolding all_at_least
meets_platform tee pck l =
    (length l.sgx_tcbcomponents == length pck.cpu_svn_components
      && length l.tdx_tcbcomponents == length tee)
    && all_at_least pck.cpu_svn_components l.sgx_tcbcomponents
    && leb l.pcesvn pck.pce_svn
    && all_at_least (drop (first_svn tee) tee) (drop (first_svn tee) l.tdx_tcbcomponents)

abbrev pub level_or : Option TcbLevel → TcbError → Result TcbError TcbLevel
level_or none e = err e
level_or (some l) e = ok l

-- matchPlatformLevel
unfoldable pub match_platform_level : List TcbLevel → Bytes → PckCertTcb → Result TcbError TcbLevel
unfolding first_level meets_platform
match_platform_level levels tee pck =
    level_or (first_level (meets_platform tee pck) levels) no_platform_level

-- matchModuleLevel
unfoldable pub match_module_level : List TdxModuleIdentity → Bytes → Result TcbError TcbLevel
unfolding first_level hex_encode
match_module_level [] tee =
    err (no_module_identity (codes "TDX_" ++ hex_encode (svn_at tee 1 ∷ [])))
match_module_level (identity ∷ rest) tee =
    let id = codes "TDX_" ++ hex_encode (svn_at tee 1 ∷ []) in
    let later = match_module_level rest tee in
    if bytes_eq identity.id id
    then level_or (first_level (λ l. leb l.isvsvn (svn_at tee 0)) identity.module_levels)
        (no_module_level id)
    else later

-- What the levels are matched against: the TCB info, the QE identity, the quote and the certificate.
pub record Evidence : Type 0 where
  pub evidence_fmspc : Bytes
  pub platform_levels : List TcbLevel
  pub module_identities : List TdxModuleIdentity
  pub qe_levels : List TcbLevel
  pub tee_tcb_svn : Bytes
  pub pck : PckCertTcb
  pub qe_isv_svn : ℕ

module_levels_of : Evidence → Result TcbError (List (Bytes × TcbLevel))
unfolding match_module_level
module_levels_of e =
    if ltb 0 (svn_at e.tee_tcb_svn 1)
    then (match_module_level e.module_identities e.tee_tcb_svn >>= λ l.
        ok ((codes "TDX module", l) ∷ []))
    else ok []

-- matchTCBLevels
unfoldable pub match_tcb_levels : Evidence → Result TcbError (List (Bytes × TcbLevel))
unfolding match_platform_level module_levels_of first_level
match_tcb_levels e = do
  refuse_if (not (length e.tee_tcb_svn == 16)) (wrong_svn_width (length e.tee_tcb_svn))
  platform ← match_platform_level e.platform_levels e.tee_tcb_svn e.pck
  module_level ← module_levels_of e
  qe ←
      level_or (first_level (λ l. leb l.isvsvn e.qe_isv_svn) e.qe_levels) (no_qe_level e.qe_isv_svn)
  ok ((codes "platform", platform) ∷ module_level ++ (codes "QE", qe) ∷ [])

index_from : ℕ → List Bytes → Bytes → Option ℕ
index_from i [] s = none
index_from i (x ∷ xs) s =
    let rest = index_from (i + 1) xs s in if bytes_eq x s then some i else rest

-- slices.Index(tcbStatusOrder, s); `none` is -1.
unfoldable pub rank : TdxTcbStatus → Option ℕ
unfolding index_from
rank s = index_from 0 tcb_status_order s

-- `rank > worst`, both of them -1 when `none`.
abbrev pub is_worse : Option ℕ → Option ℕ → Bool
is_worse none worst = false
is_worse (some r) none = true
is_worse (some r) (some w) = ltb w r

-- The advisories of a level, those that are there already left out.
unfoldable pub add_advisories : List Bytes → List Bytes → List Bytes
add_advisories ids [] = ids
add_advisories ids (id ∷ rest) =
    add_advisories (if contains ids id then ids else ids ++ id ∷ []) rest

abbrev pub raise : TcbLevel → Option ℕ × TdxTcbStatus → Option ℕ × TdxTcbStatus
raise l (worst, s) =
    if is_worse (rank l.status) worst then (rank l.status, l.status) else (worst, s)

-- The loop of evaluateTCBStatus: the worst rank so far with its status, and the advisories.
unfoldable pub fold_levels :
    List TdxTcbStatus
    → List (Bytes × TcbLevel)
    → Option ℕ × TdxTcbStatus
    → List Bytes
    → Result TcbError (TdxTcbStatus × List Bytes)
unfolding add_advisories
fold_levels accepted [] worst ids = ok (worst.1, ids)
fold_levels accepted ((name, l) ∷ ls) worst ids =
    refuse_if (not (contains accepted l.status)) (not_accepted name l.status)
    >> fold_levels accepted ls (raise l worst) (add_advisories ids l.advisories)

-- evaluateTCBStatus, from the parsed collateral on.
unfoldable pub evaluate_tcb_status :
    Evidence → List TdxTcbStatus → Result TcbError DcapVerificationStatus
unfolding match_tcb_levels fold_levels
evaluate_tcb_status e accepted = do
  levels ← match_tcb_levels e
  folded ← fold_levels accepted levels (none, []) []
  ok (record {
    tcb_status = folded.0;
    fmspc = e.evidence_fmspc;
    advisory_ids = folded.1;
    collateral_expired = false;
  })
