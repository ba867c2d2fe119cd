-- ===== src/Strictjson/Unique.antt =====
-- Over the tokens of a JSON object, the walk accepts exactly the documents with no repeated key.
use attestation_go.Base.{
  ℕ, zero, suc, ◌+◌, ◌*◌, ◌≤◌, ◌≡◌, ◌↔◌, refl, ap, ◌∙◌, arith, Bool, true, false, ◌||◌, List, [],
  ◌∷◌, ◌++◌, append_assoc, append-nil, Bytes, length, All, ok, bind-eq-ok, refuse_if-eq-ok, ◌⊎◌,
  inl, inr, Result, err, Bool-cases,
}
use attestation_go.Strictjson.{
  Token, open_object, close_object, open_array, close_array, scalar, string, duplicate_key, more,
  contains_fold, walk_object, walk_value, walk_items, reject_duplicate_keys, JsonError,
}

-- A JSON value, with the keys of its objects as they are written.
mutual
  pub data Json : Type 0 where
    atom : Json
    word : Bytes → Json
    array : Items → Json
    object : Members → Json

  pub data Items : Type 0 where
    no_items : Items
    item : Json → Items → Items

  pub data Members : Type 0 where
    no_members : Members
    member : Bytes → Json → Members → Members

unfoldable mutual
  pub value_tokens : Json → List Token → List Token
  value_tokens atom rest = scalar ∷ rest
  value_tokens (word s) rest = string s ∷ rest
  value_tokens (array is) rest = open_array ∷ item_tokens is rest
  value_tokens (object ms) rest = open_object ∷ member_tokens ms rest

  pub item_tokens : Items → List Token → List Token
  item_tokens no_items rest = close_array ∷ rest
  item_tokens (item v is) rest = value_tokens v (item_tokens is rest)

  pub member_tokens : Members → List Token → List Token
  member_tokens no_members rest = close_object ∷ rest
  member_tokens (member k v ms) rest = string k ∷ value_tokens v (member_tokens ms rest)

unfoldable pub keys_of : Members → List Bytes
keys_of no_members = []
keys_of (member k v ms) = k ∷ keys_of ms

-- The fuel that a walk needs.
unfoldable mutual
  weight : Json → ℕ
  weight atom = 1
  weight (word s) = 1
  weight (array is) = 1 + weight_items is
  weight (object ms) = 1 + weight_members ms

  weight_items : Items → ℕ
  weight_items no_items = 1
  weight_items (item v is) = 1 + (weight v + weight_items is)

  weight_members : Members → ℕ
  weight_members no_members = 1
  weight_members (member k v ms) = 1 + (weight v + weight_members ms)

mutual
  unfolding weight value_tokens

  weight-le :
      (v : Json) (rest : List Token)
      → weight v + 1 + 2 * length rest ≤ 2 * length (value_tokens v rest)
  weight-le atom rest = omega arith
  weight-le (word s) rest = omega arith
  weight-le (array is) rest = omega (arith, weight_items-le is rest)
  weight-le (object ms) rest = omega (arith, weight_members-le ms rest)

  weight_items-le :
      (is : Items) (rest : List Token)
      → weight_items is + 2 * length rest ≤ 2 * length (item_tokens is rest)
  weight_items-le no_items rest = omega arith
  weight_items-le (item v is) rest =
      omega (arith, weight-le v (item_tokens is rest), weight_items-le is rest)

  weight_members-le :
      (ms : Members) (rest : List Token)
      → weight_members ms + 2 * length rest ≤ 2 * length (member_tokens ms rest)
  weight_members-le no_members rest = omega arith
  weight_members-le (member k v ms) rest =
      omega (arith, weight-le v (member_tokens ms rest), weight_members-le ms rest)

module _ (equal_fold : Bytes → Bytes → Bool) where
  -- No key equals a later one, in any letter case.
  abbrev pub AreDistinct : List Bytes → Type 0
  AreDistinct [] = Unit {0}
  AreDistinct (k ∷ ks) = All (λ j. equal_fold k j ≡ false) ks × AreDistinct ks

  -- No object within a value repeats a key.
  unfoldable mutual
    pub IsUnique : Json → Type 0
    IsUnique atom = Unit {0}
    IsUnique (word s) = Unit {0}
    IsUnique (array is) = AllUnique is
    IsUnique (object ms) = AreDistinct (keys_of ms) × EachUnique ms

    pub AllUnique : Items → Type 0
    AllUnique no_items = Unit {0}
    AllUnique (item v is) = IsUnique v × AllUnique is

    pub EachUnique : Members → Type 0
    EachUnique no_members = Unit {0}
    EachUnique (member k v ms) = IsUnique v × EachUnique ms

  abbrev Fresh : List Bytes → List Bytes → Type 0
  Fresh keys ks = All (λ k. contains_fold equal_fold keys k ≡ false) ks

  contains_fold-snoc :
      (keys : List Bytes) (k j : Bytes)
      → contains_fold equal_fold (keys ++ (k ∷ [])) j
        ≡ (contains_fold equal_fold keys j || equal_fold k j)
  unfolding contains_fold
  contains_fold-snoc [] k j = ground arith
  contains_fold-snoc (seen ∷ keys) k j = ground (arith, contains_fold-snoc keys k j)

  Fresh-snoc :
      (keys : List Bytes) (k : Bytes) (ks : List Bytes)
      → Fresh (keys ++ (k ∷ [])) ks ↔ (Fresh keys ks × All (λ j. equal_fold k j ≡ false) ks)
  Fresh-snoc keys k [] = (λ h. (tt, tt), λ h. tt)
  Fresh-snoc keys k (j ∷ ks) =
      let ih = Fresh-snoc keys k ks in
      let e = contains_fold-snoc keys k j in
      (
        λ h. ((ground (arith, h.0), (ih.0 h.1).0), (ground (arith, h.0), (ih.0 h.1).1)),
        λ h. (ground (arith, h.0.0, h.1.0), ih.1 (h.0.1, h.1.1)),
      )

  all-Fresh : (ks : List Bytes) → Fresh [] ks
  unfolding contains_fold
  all-Fresh [] = tt
  all-Fresh (k ∷ ks) = (refl, all-Fresh ks)

  more-value_tokens : (v : Json) (rest : List Token) → more (value_tokens v rest) ≡ true
  unfolding more value_tokens
  more-value_tokens atom rest = refl
  more-value_tokens (word s) rest = refl
  more-value_tokens (array is) rest = refl
  more-value_tokens (object ms) rest = refl

  mutual
    unfolding value_tokens walk_object keys_of IsUnique weight

    walk_value_complete :
        (v : Json) (n : ℕ) (rest : List Token)
        → weight v ≤ n
        → IsUnique v
        → walk_value equal_fold n (value_tokens v rest) ≡ ok rest
    walk_value_complete atom zero rest le u = absurd (omega arith)
    walk_value_complete (word s) zero rest le u = absurd (omega arith)
    walk_value_complete (array is) zero rest le u = absurd (omega arith)
    walk_value_complete (object ms) zero rest le u = absurd (omega arith)
    walk_value_complete atom (suc n) rest le u = refl
    walk_value_complete (word s) (suc n) rest le u = refl
    walk_value_complete (array is) (suc n) rest le u = walk_items_complete is n rest (omega arith) u
    walk_value_complete (object ms) (suc n) rest le u =
        rw (walk_object_complete ms n [] rest (omega arith) (all-Fresh (keys_of ms)) u.0 u.1)

    walk_items_complete :
        (is : Items) (n : ℕ) (rest : List Token)
        → weight_items is ≤ n
        → AllUnique is
        → walk_items equal_fold n (item_tokens is rest) ≡ ok rest
    walk_items_complete no_items zero rest le u = absurd (omega arith)
    walk_items_complete (item v is) zero rest le u = absurd (omega arith)
    walk_items_complete no_items (suc n) rest le u = refl
    walk_items_complete (item v is) (suc n) rest le u =
        rw
          (
            more-value_tokens v (item_tokens is rest),
            walk_value_complete v n (item_tokens is rest) (omega arith) u.0,
          )
          (walk_items_complete is n rest (omega arith) u.1)

    walk_object_complete :
        (ms : Members) (n : ℕ) (keys : List Bytes) (rest : List Token)
        → weight_members ms ≤ n
        → Fresh keys (keys_of ms)
        → AreDistinct (keys_of ms)
        → EachUnique ms
        → walk_object equal_fold n keys (member_tokens ms rest) ≡ ok (keys ++ keys_of ms, rest)
    walk_object_complete no_members zero keys rest le f d u = absurd (omega arith)
    walk_object_complete (member k v ms) zero keys rest le f d u = absurd (omega arith)
    walk_object_complete no_members (suc n) keys rest le f d u = rw (append-nil keys)
    walk_object_complete (member k v ms) (suc n) keys rest le f d u =
        rw (f.0, walk_value_complete v n (member_tokens ms rest) (omega arith) u.0)
          (walk_object_complete ms n (keys ++ (k ∷ [])) rest (omega arith)
              ((Fresh-snoc keys k (keys_of ms)).1 (f.1, d.0)) d.1 u.1
            ∙ ap (λ ks. ok (ks, rest)) (append_assoc keys (k ∷ []) (keys_of ms)))

  mutual
    unfolding value_tokens walk_object keys_of IsUnique

    walk_value_sound :
        (v : Json) (n : ℕ) (rest r : List Token)
        → walk_value equal_fold n (value_tokens v rest) ≡ ok r
        → IsUnique v × (r ≡ rest)
    walk_value_sound atom zero rest r h = cc
    walk_value_sound (word s) zero rest r h = cc
    walk_value_sound (array is) zero rest r h = cc
    walk_value_sound (object ms) zero rest r h = cc
    walk_value_sound atom (suc n) rest r h = (tt, cc)
    walk_value_sound (word s) (suc n) rest r h = (tt, cc)
    walk_value_sound (array is) (suc n) rest r h = walk_items_sound is n rest r h
    walk_value_sound (object ms) (suc n) rest r h =
        let (p, walked, h1) =
          bind-eq-ok (walk_object equal_fold n [] (member_tokens ms rest)) _ h in
        let (_, d, u, e) = walk_object_sound ms n [] rest p walked in
        let same : p.1 ≡ rest = ap (λ q. q.1) e in ((d, u), cc (h1, same))

    walk_items_sound :
        (is : Items) (n : ℕ) (rest r : List Token)
        → walk_items equal_fold n (item_tokens is rest) ≡ ok r
        → AllUnique is × (r ≡ rest)
    walk_items_sound no_items zero rest r h = cc
    walk_items_sound (item v is) zero rest r h = cc
    walk_items_sound no_items (suc n) rest r h = (tt, cc)
    walk_items_sound (item v is) (suc n) rest r h =
        let (s, walked, h1) =
          bind-eq-ok (walk_value equal_fold n (value_tokens v (item_tokens is rest))) _
            (rw (more-value_tokens v (item_tokens is rest)) at h) in
        let (u, e) = walk_value_sound v n (item_tokens is rest) s walked in
        let (us, f) = walk_items_sound is n rest r (rw e at h1) in ((u, us), f)

    walk_object_sound :
        (ms : Members) (n : ℕ) (keys : List Bytes) (rest : List Token) (r : List Bytes × List Token)
        → walk_object equal_fold n keys (member_tokens ms rest) ≡ ok r
        → Fresh keys (keys_of ms)
          × AreDistinct (keys_of ms)
          × EachUnique ms
          × (r ≡ (keys ++ keys_of ms, rest))
    walk_object_sound no_members zero keys rest r h = cc
    walk_object_sound (member k v ms) zero keys rest r h = cc
    walk_object_sound no_members (suc n) keys rest r h = (tt, tt, tt, rw (append-nil keys) (cc h))
    walk_object_sound (member k v ms) (suc n) keys rest r h =
        let (fresh, h1) = refuse_if-eq-ok (contains_fold equal_fold keys k) (duplicate_key k) h in
        let (s, walked, h2) =
          bind-eq-ok (walk_value equal_fold n (value_tokens v (member_tokens ms rest))) _ h1 in
        let (u, e) = walk_value_sound v n (member_tokens ms rest) s walked in
        let (f, d, us, g) = walk_object_sound ms n (keys ++ (k ∷ [])) rest r (rw e at h2) in
        let (f1, f2) = (Fresh-snoc keys k (keys_of ms)).0 f in
        (
          (fresh, f1),
          (f2, d),
          (u, us),
          g ∙ ap (λ ks. (ks, rest)) (append_assoc keys (k ∷ []) (keys_of ms)),
        )

  abbrev pub IsRefused {ℓ} : {A : Type ℓ} → Result JsonError A → Type ℓ
  IsRefused m = (k : Bytes) × (m ≡ err (duplicate_key k))

  mutual
    unfolding value_tokens walk_object keys_of weight

    walk_value_total :
        (v : Json) (n : ℕ) (rest : List Token)
        → weight v ≤ n
        → (walk_value equal_fold n (value_tokens v rest) ≡ ok rest)
          ⊎ IsRefused (walk_value equal_fold n (value_tokens v rest))
    walk_value_total atom zero rest le = absurd (omega arith)
    walk_value_total (word s) zero rest le = absurd (omega arith)
    walk_value_total (array is) zero rest le = absurd (omega arith)
    walk_value_total (object ms) zero rest le = absurd (omega arith)
    walk_value_total atom (suc n) rest le = inl refl
    walk_value_total (word s) (suc n) rest le = inl refl
    walk_value_total (array is) (suc n) rest le = walk_items_total is n rest (omega arith)
    walk_value_total (object ms) (suc n) rest le =
        elim (walk_object_total ms n [] rest (omega arith)) [
          | inl done ↦ inl (rw done refl)
          | inr (k, refused) ↦ inr (k, rw refused refl)
        ]

    walk_items_total :
        (is : Items) (n : ℕ) (rest : List Token)
        → weight_items is ≤ n
        → (walk_items equal_fold n (item_tokens is rest) ≡ ok rest)
          ⊎ IsRefused (walk_items equal_fold n (item_tokens is rest))
    walk_items_total no_items zero rest le = absurd (omega arith)
    walk_items_total (item v is) zero rest le = absurd (omega arith)
    walk_items_total no_items (suc n) rest le = inl refl
    walk_items_total (item v is) (suc n) rest le =
        let has_more = more-value_tokens v (item_tokens is rest) in
        elim (walk_value_total v n (item_tokens is rest) (omega arith)) [
          | inl done ↦ rw (has_more, done) (walk_items_total is n rest (omega arith))
          | inr (k, refused) ↦ rw (has_more, refused) (inr (k, refl))
        ]

    walk_object_total :
        (ms : Members) (n : ℕ) (keys : List Bytes) (rest : List Token)
        → weight_members ms ≤ n
        → (walk_object equal_fold n keys (member_tokens ms rest) ≡ ok (keys ++ keys_of ms, rest))
          ⊎ IsRefused (walk_object equal_fold n keys (member_tokens ms rest))
    walk_object_total no_members zero keys rest le = absurd (omega arith)
    walk_object_total (member k v ms) zero keys rest le = absurd (omega arith)
    walk_object_total no_members (suc n) keys rest le = inl (rw (append-nil keys) refl)
    walk_object_total (member k v ms) (suc n) keys rest le =
        elim (Bool-cases (contains_fold equal_fold keys k)) [
          | inl seen ↦ rw seen (inr (k, refl))
          | inr fresh ↦ elim (walk_value_total v n (member_tokens ms rest) (omega arith)) [
            | inl done ↦
                rw (fresh, done, ← append_assoc keys (k ∷ []) (keys_of ms))
                  (walk_object_total ms n (keys ++ (k ∷ [])) rest (omega arith))
            | inr (j, refused) ↦ rw (fresh, refused) (inr (j, refl))
          ]
        ]

  -- The tokens of a JSON object, whatever follows it, are either accepted, with the keys of the object in
  -- their order, or refused for a repeated key, and for nothing else: the walk does not run out of fuel.
  -- They are accepted exactly when no object within it, itself included, has two keys that are equal in
  -- some letter case.
  pub reject_duplicate_keys_iff :
      (ms : Members) (rest : List Token)
      → ((reject_duplicate_keys equal_fold (value_tokens (object ms) rest) ≡ ok (keys_of ms))
          ↔ IsUnique (object ms))
        × ((reject_duplicate_keys equal_fold (value_tokens (object ms) rest) ≡ ok (keys_of ms))
            ⊎ IsRefused (reject_duplicate_keys equal_fold (value_tokens (object ms) rest)))
  unfolding reject_duplicate_keys value_tokens IsUnique
  reject_duplicate_keys_iff ms rest =
      let fuel = 2 * length (open_object ∷ member_tokens ms rest) in
      let enough : weight_members ms ≤ fuel = omega (arith, weight_members-le ms rest) in
      (
        (
          λ h.
              let (p, walked, _) =
                bind-eq-ok (walk_object equal_fold fuel [] (member_tokens ms rest)) _ h in
              let (_, d, u, _) = walk_object_sound ms fuel [] rest p walked in (d, u),
          λ u. rw (walk_object_complete ms fuel [] rest enough (all-Fresh (keys_of ms)) u.0 u.1),
        ),
        elim (walk_object_total ms fuel [] rest enough) [
          | inl done ↦ inl (rw done refl)
          | inr (k, refused) ↦ inr (k, rw refused refl)
        ],
      )
