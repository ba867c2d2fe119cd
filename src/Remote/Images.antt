-- ===== src/Remote/Images.antt =====
-- remote/images.go: evidence is accepted when it matches one pinned image whole.
pub mod Whole
pub mod Unbound
pub mod Bindings
use attestation_go.Base.{
  ℕ, suc, ◌+◌, ◌≡◌, Bool, true, false, not, ◌&&◌, Option, none, some, List, [], ◌∷◌, ◌++◌, Bytes,
  bytes_eq, length, take, ltb, ◌==◌, if◌then◌else◌, Result, ok, err, ◌>>=◌, ◌>>◌, refuse_if,
  map_err, Stdlib,
}
use attestation_go.Teetypes.Platform.{PlatformType, Family, family, has_registers}
use attestation_go.Teetypes.Claims.{Pins}
use attestation_go.Teetypes.Verdict.{VerificationResult}
use attestation_go.Runtimemeasure.LaunchFile.{check_launch_file_digest}
use attestation_go.Runtimemeasure.Binding.{
  BindingError, verify_binding, match_binding_prefix, match_launch_file_digest_prefix,
}
use attestation_go.Remote.Checks.{
  ReplayError, not_bound, extensions_not_accepted, extension_refused, RemoteError, no_such_image,
  no_registers, anchor_not_allowed, launch_file_not_allowed, several_bindings, empty_launch_file,
  unused_accept, bad_launch_file_digest, of_image, enforce_rtmrs_against, check_verified_platform,
  launch_digest_of,
}

-- AcceptExtension, by the error that it returns: nil is `none`.
abbrev pub Accept : Type 0
Accept = Bytes → Option Bytes

pub record ImagePin : Type 0 where
  pub name : Bytes
  pub digest : Bytes
  pub registers : Pins
  pub anchor : Option Bytes
  pub launch_file : Option Bytes
  pub launch_file_digest : Option Bytes
  pub accept_extension : Option Accept

abbrev refused : Bytes → Option Bytes → Result ReplayError (Unit {0})
refused d none = ok tt
refused d (some e) = err (extension_refused d e)

unfoldable pub accept_each : Accept → List Bytes → Result ReplayError (Unit {0})
accept_each accept [] = ok tt
accept_each accept (d ∷ ds) = refused d (accept d) >> accept_each accept ds

abbrev judge : Option Accept → List Bytes → Result ReplayError (Unit {0})
judge none [] = ok tt
judge none (d ∷ ds) = err (extensions_not_accepted (length (d ∷ ds)))
judge (some accept) proven = accept_each accept proven

-- A matcher of runtimemeasure, on the result of a response.
abbrev pub BindingMatcher : Type 0
BindingMatcher = VerificationResult → Bytes → List Bytes → Result BindingError ℕ

-- enforceReplayedBinding
unfoldable pub enforce_replayed_binding :
    VerificationResult
    → Bytes
    → List Bytes
    → BindingMatcher
    → Option Accept
    → Result ReplayError (Unit {0})
unfolding accept_each
enforce_replayed_binding r bound claimed match_of accept = do
  k ← map_err not_bound (match_of r bound claimed)
  judge accept (take k claimed)

abbrev pub is_some {ℓ} : {A : Type ℓ} → Option A → Bool
is_some none = false
is_some (some a) = true

abbrev pub one_if : Bool → ℕ
one_if true = 1
one_if false = 0

-- The check that an image asks for when it sets a field.
abbrev pub when_set {ℓ} :
    {A : Type ℓ} → Option A → (A → Result RemoteError (Unit {0})) → Result RemoteError (Unit {0})
when_set none f = ok tt
when_set (some a) f = f a

module _ ⦃lib : Stdlib⦄ where
  check_pin : Family → ImagePin → Result RemoteError (Unit {0})
  check_pin f img = do
    refuse_if
        (ltb 1 (
          one_if (is_some img.anchor)
          + one_if (is_some img.launch_file)
          + one_if (is_some img.launch_file_digest)))
        (of_image img.name several_bindings)
    when_set img.launch_file
        (λ file. refuse_if (length file == 0) (of_image img.name empty_launch_file))
    refuse_if (is_some img.launch_file && is_some img.accept_extension)
        (of_image img.name unused_accept)
    when_set img.launch_file_digest (λ d.
        map_err (λ e. of_image img.name (bad_launch_file_digest e)) (check_launch_file_digest f d))

  -- checkLaunchBindingPins
  unfoldable pub check_launch_binding_pins : List ImagePin → Family → Result RemoteError (Unit {0})
  unfolding check_pin
  check_launch_binding_pins [] f = ok tt
  check_launch_binding_pins (img ∷ imgs) f = check_pin f img >> check_launch_binding_pins imgs f

  abbrev match_anchor : BindingMatcher
  match_anchor r = match_binding_prefix (some r)

  abbrev match_digest : BindingMatcher
  match_digest r = match_launch_file_digest_prefix (some r)

  pub enforce_registers : VerificationResult → PlatformType → Pins → Result RemoteError (Unit {0})
  enforce_registers r platform [] = ok tt
  enforce_registers r platform (p ∷ ps) = do
    refuse_if (not (has_registers platform)) (no_registers (length (p ∷ ps)))
    enforce_rtmrs_against r.claims (p ∷ ps)

  -- The body of the loop over the images, once the launch digest is the image's.
  unfoldable pub match_image :
      VerificationResult → PlatformType → List Bytes → ImagePin → Result RemoteError (Unit {0})
  unfolding enforce_registers enforce_replayed_binding
  match_image r platform claimed img = map_err (of_image img.name) (do
    enforce_registers r platform img.registers
    when_set img.anchor (λ a.
        map_err anchor_not_allowed
          (enforce_replayed_binding r a claimed match_anchor img.accept_extension))
    when_set img.launch_file (λ file.
        map_err launch_file_not_allowed (map_err not_bound (verify_binding (some r) file [])))
    when_set img.launch_file_digest (λ d.
        map_err launch_file_not_allowed
          (enforce_replayed_binding r d claimed match_digest img.accept_extension)))

  abbrev nothing_matched : Option RemoteError → Result RemoteError (Unit {0})
  nothing_matched none = err no_such_image
  nothing_matched (some e) = err e

  -- One round: no match of the digest, a match of the whole image, or an error to keep.
  abbrev stop_or :
      Option (Result RemoteError (Unit {0}))
      → Option RemoteError
      → (Option RemoteError → Result RemoteError (Unit {0}))
      → Result RemoteError (Unit {0})
  stop_or none last continue = continue last
  stop_or (some (ok _)) last continue = ok tt
  stop_or (some (err e)) last continue = continue (some e)

  -- The loop over the images, with the last error that it kept.
  unfoldable pub match_images :
      VerificationResult
      → PlatformType
      → List Bytes
      → Bytes
      → List ImagePin
      → Option RemoteError
      → Result RemoteError (Unit {0})
  unfolding match_image
  match_images r platform claimed digest [] last = nothing_matched last
  match_images r platform claimed digest (img ∷ imgs) last =
      stop_or
        (if bytes_eq digest img.digest then some (match_image r platform claimed img) else none)
        last (match_images r platform claimed digest imgs)

  -- EnforceImagesWithRuntimeLog
  unfoldable pub enforce_images_with_runtime_log :
      VerificationResult → List ImagePin → PlatformType → List Bytes → Result RemoteError (Unit {0})
  unfolding check_launch_binding_pins match_images
  enforce_images_with_runtime_log r [] platform claimed = ok tt
  enforce_images_with_runtime_log r (img ∷ imgs) platform claimed = do
    check_verified_platform r platform
    check_launch_binding_pins (img ∷ imgs) (family platform)
    digest ← launch_digest_of r
    match_images r platform claimed digest (img ∷ imgs) none

  -- EnforceImages
  unfoldable pub enforce_images :
      VerificationResult → List ImagePin → PlatformType → Result RemoteError (Unit {0})
  unfolding enforce_images_with_runtime_log
  enforce_images r imgs platform = enforce_images_with_runtime_log r imgs platform []
