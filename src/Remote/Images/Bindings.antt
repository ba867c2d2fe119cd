-- ===== src/Remote/Images/Bindings.antt =====
-- Images whose launch binding is written as checkLaunchBindingPins wants it.
use attestation_go.Base.{
  ◌≡◌, ◌⊎◌, inl, inr, refl, false, none, some, List, [], ◌∷◌, Bytes, length, All, ok, ◌==◌, Stdlib,
}
use attestation_go.Teetypes.Platform.{Family}
use attestation_go.Runtimemeasure.LaunchFile.{check_launch_file_digest}
use attestation_go.Remote.Images.{ImagePin, check_pin, check_launch_binding_pins}

-- An image with one launch binding at most, and with a launch file that is not empty or the digest of one.
module _ ⦃lib : Stdlib⦄ where
  abbrev pub IsBound : Family → ImagePin → Type 0
  IsBound f img =
      ((img.anchor ≡ none) × (img.launch_file ≡ none) × (img.launch_file_digest ≡ none))
      ⊎ ((key : Bytes) × (img.anchor ≡ some key)
          × (img.launch_file ≡ none)
          × (img.launch_file_digest ≡ none))
      ⊎ ((file : Bytes) × (img.anchor ≡ none)
          × (img.launch_file ≡ some file)
          × (img.launch_file_digest ≡ none)
          × ((length file == 0) ≡ false))
      ⊎ ((d : Bytes) × (img.anchor ≡ none)
          × (img.launch_file ≡ none)
          × (img.launch_file_digest ≡ some d)
          × (check_launch_file_digest f d ≡ ok tt))

  check_pin-IsBound :
      (f : Family) (img : ImagePin)
      → img.accept_extension ≡ none
      → IsBound f img
      → check_pin f img ≡ ok tt
  unfolding check_pin
  check_pin-IsBound f img a (inl h) = rw (h.0, h.1, h.2)
  check_pin-IsBound f img a (inr (inl h)) = rw (h.1, h.2, h.3)
  check_pin-IsBound f img a (inr (inr (inl h))) = rw (h.1, h.2, h.3, h.4, a)
  check_pin-IsBound f img a (inr (inr (inr h))) = rw (h.1, h.2, h.3, h.4)

  pub check_launch_binding_pins-IsBound :
      (f : Family) (imgs : List ImagePin)
      → All (λ i. (i.accept_extension ≡ none) × IsBound f i) imgs
      → check_launch_binding_pins imgs f ≡ ok tt
  unfolding check_launch_binding_pins
  check_launch_binding_pins-IsBound f [] h = refl
  check_launch_binding_pins-IsBound f (img ∷ imgs) h =
      rw (check_pin-IsBound f img h.0.0 h.0.1) (check_launch_binding_pins-IsBound f imgs h.1)
