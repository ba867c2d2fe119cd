-- ===== src/Strictjson.antt =====
-- internal/strictjson/strictjson.go: a document that names a key twice in one object is refused. The
-- tokens are those that json.Decoder.Token returns.
pub mod Unique
use attestation_go.Base.{
  ℕ, zero, suc, ◌*◌, Bool, true, false, ◌||◌, List, [], ◌∷◌, ◌++◌, Bytes, length, if◌then◌else◌,
  Result, ok, err, ◌>>=◌, ◌>>◌, refuse_if,
}

-- A closing delimiter that matches none is told apart from other text that is no token: More is false
-- before it.
pub data Token : Type 0 where
  open_object close_object open_array close_array bad_close scalar invalid : Token
  string : Bytes → Token

pub data JsonError : Type 0 where
  not_valid key_is_no_string out_of_fuel : JsonError
  duplicate_key : Bytes → JsonError

-- Decoder.More
unfoldable pub more : List Token → Bool
more [] = false
more (close_object ∷ ts) = false
more (close_array ∷ ts) = false
more (bad_close ∷ ts) = false
more (t ∷ ts) = true

-- Decoder.Token
unfoldable pub next_token : List Token → Result JsonError (Token × List Token)
next_token [] = err not_valid
next_token (invalid ∷ ts) = err not_valid
next_token (bad_close ∷ ts) = err not_valid
next_token (t ∷ ts) = ok (t, ts)

abbrev pub key_of : Token × List Token → Result JsonError (Bytes × List Token)
key_of (string s, ts) = ok (s, ts)
key_of (_, ts) = err key_is_no_string

-- strings.EqualFold of two keys.
module _ (equal_fold : Bytes → Bytes → Bool) where
  -- slices.ContainsFunc with strings.EqualFold
  unfoldable pub contains_fold : List Bytes → Bytes → Bool
  contains_fold [] key = false
  contains_fold (seen ∷ keys) key = equal_fold seen key || contains_fold keys key

  abbrev pub enter :
      Token
      → List Token
      → (List Token → Result JsonError (List Bytes × List Token))
      → (List Token → Result JsonError (List Token))
      → Result JsonError (List Token)
  enter open_object ts object items = object ts >>= λ r. ok r.1
  enter open_array ts object items = items ts
  enter _ ts object items = ok ts

  -- walkObject, walkValue and its loop over an array; each takes one off the fuel.
  unfoldable mutual
    unfolding more next_token contains_fold

    pub walk_object : ℕ → List Bytes → List Token → Result JsonError (List Bytes × List Token)
    walk_object zero keys ts = err out_of_fuel
    walk_object (suc n) keys ts =
        if more ts
        then (next_token ts >>= λ t. key_of t >>= λ k.
            refuse_if (contains_fold keys k.0) (duplicate_key k.0)
            >> (walk_value n k.1 >>= λ rest. walk_object n (keys ++ (k.0 ∷ [])) rest))
        else (next_token ts >>= λ t. ok (keys, t.1))

    pub walk_value : ℕ → List Token → Result JsonError (List Token)
    walk_value zero ts = err out_of_fuel
    walk_value (suc n) ts = next_token ts >>= λ t.
        enter t.0 t.1 (λ rest. walk_object n [] rest) (λ rest. walk_items n rest)

    pub walk_items : ℕ → List Token → Result JsonError (List Token)
    walk_items zero ts = err out_of_fuel
    walk_items (suc n) ts =
        if more ts
        then (walk_value n ts >>= λ rest. walk_items n rest)
        else (next_token ts >>= λ t. ok t.1)

  -- RejectDuplicateKeys; twice the number of tokens is fuel enough.
  unfoldable pub reject_duplicate_keys : List Token → Result JsonError (List Bytes)
  unfolding walk_object
  reject_duplicate_keys (open_object ∷ ts) =
      walk_object (2 * length (open_object ∷ ts)) [] ts >>= λ r. ok r.0
  reject_duplicate_keys ts = ok []
