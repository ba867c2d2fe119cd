-- ===== src/Refvalues/Sets/Agreement.antt =====
-- Register maps that agree hold the same entries.
use attestation_go.Base.{
  suc, ◌≡◌, ◌↔◌, inl, inr, refl, sym, ap, ℤ, int_eq, int_eq_iff, true, false, Option, none, some,
  [], ◌∷◌, arith, Bytes, bytes_eq_iff, length, All, Bool-cases, if◌then◌else◌,
}
use attestation_go.Teetypes.Claims.{pin_at, Pins}
use attestation_go.Teetypes.Claims.Registers.{IsMap}
use attestation_go.Refvalues.Sets.{holds_value, all_in, same_pins}

remove : ℤ → Pins → Pins
remove i [] = []
remove i ((j, w) ∷ b) = if int_eq i j then b else (j, w) ∷ remove i b

length-remove :
    (i : ℤ) (b : Pins) {w : Bytes} → pin_at i b ≡ some w → length b ≡ suc (length (remove i b))
unfolding pin_at remove
length-remove i [] h = cc
length-remove i ((j, w) ∷ b) h = elim (Bool-cases (int_eq i j)) [
  | inl same ↦ rw same
  | inr other ↦ rw other (ap suc (length-remove i b (rw other at h)))
]

pin_at-remove : (k i : ℤ) (b : Pins) → int_eq k i ≡ false → pin_at k (remove i b) ≡ pin_at k b
unfolding pin_at remove
pin_at-remove k i [] h = refl
pin_at-remove k i ((j, w) ∷ b) h = elim (Bool-cases (int_eq i j)) [
  | inl same ↦
      let e : i ≡ j = (int_eq_iff i j).0 same in
      let differs : int_eq k j ≡ false = rw e at h in rw (same, differs)
  | inr other ↦ rw other (ap (λ o. if int_eq k j then some w else o) (pin_at-remove k i b h))
]

all_in-remove :
    (i : ℤ) (a b : Pins)
    → All (λ e. int_eq e.0 i ≡ false) a
    → all_in a b ≡ true
    → all_in a (remove i b) ≡ true
unfolding all_in
all_in-remove i [] b d h = refl
all_in-remove i ((k, v) ∷ a) b d h =
    rw (pin_at-remove k i b d.0) (ground (arith, all_in-remove i a b d.1))

module _ (P : ℤ × Bytes → Type 0) where
  All-remove :
      (i : ℤ) (b : Pins) {w : Bytes} → pin_at i b ≡ some w → P (i, w) → All P (remove i b) → All P b
  unfolding pin_at remove
  All-remove i [] h p all = tt
  All-remove i ((j, v) ∷ b) {w} h p all = elim (Bool-cases (int_eq i j)) [
    | inl same ↦
        let e : i ≡ j = (int_eq_iff i j).0 same in
        let f : v ≡ w = cc (rw same at h) in (rw (← e, f) p, rw same at all)
    | inr other ↦
        let (first, rest) : P (j, v) × All P (remove i b) = rw other at all in
        (first, All-remove i b (rw other at h) p rest)
  ]

  pin_at-All : (i : ℤ) (b : Pins) {w : Bytes} → pin_at i b ≡ some w → All P b → P (i, w)
  unfolding pin_at
  pin_at-All i [] h all = cc
  pin_at-All i ((j, v) ∷ b) {w} h all = elim (Bool-cases (int_eq i j)) [
    | inl same ↦
        let e : i ≡ j = (int_eq_iff i j).0 same in
        let f : v ≡ w = cc (rw same at h) in rw (e, ← f) all.0
    | inr other ↦ pin_at-All i b (rw other at h) all.1
  ]

  held : (v : Bytes) (o : Option Bytes) → holds_value v o ≡ true → o ≡ some v
  held v none h = cc h
  held v (some w) h = ap some (sym ((bytes_eq_iff v w).0 h))

  All-all_in : (a b : Pins) → all_in a b ≡ true → All P b → All P a
  unfolding all_in
  All-all_in [] b h all = tt
  All-all_in ((i, v) ∷ a) b h all =
      (pin_at-All i b (held v (pin_at i b) (ground arith)) all, All-all_in a b (ground arith) all)

  all_in-All : (a b : Pins) → IsMap a → length a ≡ length b → all_in a b ≡ true → All P a → All P b
  unfolding all_in
  all_in-All [] [] m n h all = tt
  all_in-All [] (e ∷ b) m n h all = absurd (omega (arith, n))
  all_in-All ((i, v) ∷ a) b m n h all =
      let found = held v (pin_at i b) (ground arith) in
      All-remove i b found all.0 (
        all_in-All a (remove i b) m.1 (omega (arith, n, length-remove i b found))
          (all_in-remove i a b m.0 (ground arith)) all.1)

  -- What holds of every entry of a map holds of every entry of a map that equals it.
  pub same_pins-All : (a b : Pins) → IsMap a → same_pins a b ≡ true → All P a ↔ All P b
  unfolding same_pins
  same_pins-All a b m h =
      (λ all. all_in-All a b m (ground arith) (ground arith) all, All-all_in a b (ground arith))
