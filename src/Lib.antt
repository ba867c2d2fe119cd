-- ===== src/Lib.antt =====
-- Verification library of attestation-go: the core of the Go module that attests confidential VMs.
--
-- The program verifies hardware evidence of SEV-SNP and TDX guests, bare or behind an Azure vTPM,
-- normalizes it into claims, and lets a relying party enforce pins on those claims. A guest that
-- measures what it runs keeps a journal of register extends; the relying party replays that list
-- against the register in the evidence. Paths are from the repository's root.
--
-- The parts:
--   Base              shared: Boolean tests, decimal numbers, lists over the native numbers, Go's
--                     `(value, error)` as `Result`, byte strings, integers, and `Stdlib`, the
--                     functions of the standard library that the code only calls (SHA-256 and
--                     SHA-384, whose results have 32 and 48 bytes, and strings.ToLower outside
--                     ASCII).
--   Teetypes          attestation/teetypes: Text is strings.TrimSpace and the folding of a tag;
--                     Platform is platform.go; Digest is digest.go over encoding/hex; Claims and
--                     Verdict are teetypes.go (Claims.RTMR is `rtmr`, CheckRTMRs `check_rtmrs`, PCR
--                     `pcr`, VerificationResult.Check `check`).
--   Runtimemeasure    runtimemeasure: Canonical and Fold are runtimemeasure.go (CanonicalDigest,
--                     Event, Extend, FromDigestsSeeded, Seed); Device is register.go; LaunchFile is
--                     launchfile.go; Binding is binding.go and anchor.go. Journal and its children
--                     are journal.go: a `World` is the directory (the journal file and the temporary
--                     file of writeAtomic) and the register; every operation takes a world and says
--                     how its system calls end, and returns the world. MeasureOnce is `measure_once`,
--                     OpenJournalSeeded `open_journal_seeded`. History is the step relation of
--                     measurements, restarts and crashes between a record and its extend. Identity is
--                     identity.go and result.go, Manifest is manifest.go, manifest_platform.go and
--                     manifest_snp.go, PublicKey is publickey.go.
--   Tpm               attestation/tpmcommon/tpmcommon.go: Hcl is the HCL report, Quote the TPMS_ATTEST
--                     message and its checks, Overlay ApplyTPMClaims.
--   Tdx               attestation/tdx: TcbStatus is tcbstatus.go from the parsed collateral on, Ccel
--                     is ccel.go.
--   Remote            remote: Checks and Policies are verify.go, Images is images.go, Request is
--                     SetExpectedMeasurements of wire.go, Client is VerifyEnforced and VerifyEvidence
--                     over a function that stands for the post to the service. The client of a
--                     policy check reads the claims of Teetypes and the binding of Runtimemeasure.
--   Strictjson        internal/strictjson: the walk over the tokens of a document.
--   Refvalues         refvalues: Sets is refvalues.go (Flatten is `flatten`), Config and Config.Pinned
--                     are config.go from the decoded document on, Keys is tupleKey, Flags is flags.go,
--                     Manifest is manifest.go.
--   Armtls            armtls: Extension is the certificate extension of extension.go, Evidence is
--                     evidence.go and snpreport.go, Keys is ReportDataForKey and the reading of a
--                     certificate, Verify is verify.go (VerifyOffline is `verify_offline`).
--   Launchmeasure     launchmeasure/snp: Hashes is hashes.go (the table of kernel hashes), Vcpu is vcpu.go,
--                     Snp is LaunchDigest over the context, the OVMF parser and the VMSA pages of
--                     sev-snp-measure-go, which are parameters.
--   Kds               attestation/snp/kdscache.go: GetContext is `get_context`, over a directory of files.
--   Snp               attestation/snp/snp.go: Claims is extractClaims, Validate validateOptions, Verify
--                     VerifyReport and VerifyEvidence; go-sev-guest is a parameter.
--   Tests             runs of the model at concrete inputs, over a checksum for the hashes.
--
-- Bytes, strings and JSON texts are lists of numbers. An error is a value that names the place that
-- returns it, with what its message quotes. A Go map of pins is a list of its entries; an assignment
-- to a map stands before the entry that it hides. Sizes and offsets stay far below the bounds of int,
-- since each is at most the length of the data plus one field of 16 or 32 bits. encoding/json,
-- encoding/asn1, encoding/base64, encoding/pem and crypto/x509 are parameters of the definitions that
-- call them.
--
-- Fuel: ParseCCEL's loop runs on fuel of the length of the data; each round that goes on moves the
-- offset. The walk of Strictjson runs on fuel of twice the number of tokens, and the decimal digits of
-- n are printed on fuel n + 1. All other loops are structural.
--
-- Not modelled: the verifiers of TDX, of the Azure platforms and their dispatch, which mostly call
-- go-tdx-guest and go-tpm-tools; the AK key and the RSA signature of the vTPM quote; HTTP, sockets and
-- TLS; launchmeasure/tdx, which is one call; Format, Render and Diff of refvalues; the texts of the
-- errors.
pub mod Base
pub mod Teetypes
pub mod Strictjson
pub mod Runtimemeasure
pub mod Tpm
pub mod Tdx
pub mod Remote
pub mod Refvalues
pub mod Armtls
pub mod Launchmeasure
pub mod Kds
pub mod Snp
pub mod Tests
