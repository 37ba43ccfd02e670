-- ===== src/Dict.antt =====
-- `HashMap<String, V>` as an association list. The program never depends on the order of its
-- entries: it sorts what it takes out of one.
use text.Mathlib.Text.{◌==◌}
use text.Mathlib.TextEquality.{eq_iff}
use bitcoin_price_tracker.Prelude.{
  suc, ◌≤◌, ◌≡◌, refl, Bool, true, false, List, [], ◌∷◌, Option, none, some, String, arith,
  if◌then◌else◌, length, is_empty,
}

abbrev pub Dict {ℓ} : Type ℓ → Type ℓ
Dict V = List (String × V)

module _ {ℓ} {V : Type ℓ} where
  unfoldable pub lookup : String → Dict V → Option V
  lookup key [] = none
  lookup key ((other, value) ∷ rest) = if other == key then some value else lookup key rest

  unfoldable pub contains_key : String → Dict V → Bool
  contains_key key [] = false
  contains_key key ((other, _) ∷ rest) = if other == key then true else contains_key key rest

  -- A key that is there keeps its place.
  unfoldable pub insert : String → V → Dict V → Dict V
  insert key new [] = (key, new) ∷ []
  insert key new ((other, old) ∷ rest) =
      if other == key then (other, new) ∷ rest else (other, old) ∷ insert key new rest

  unfoldable pub remove : String → Dict V → Dict V
  remove key [] = []
  remove key ((other, value) ∷ rest) =
      if other == key then rest else (other, value) ∷ remove key rest

  -- `retain(|_, value| test)`.
  unfoldable pub retain : (V → Bool) → Dict V → Dict V
  retain p [] = []
  retain p ((j, w) ∷ m) = let rest = retain p m in if p w then (j, w) ∷ rest else rest

  -- Each key stands once.
  abbrev pub Unique : Dict V → Type 0
  Unique [] = Unit
  Unique ((j, w) ∷ m) = (contains_key j m ≡ false) × Unique m

  pub contains_key-lookup : (k : String) (m : Dict V) → contains_key k m ≡ false → lookup k m ≡ none
  unfolding lookup contains_key
  contains_key-lookup k [] h = refl
  contains_key-lookup k ((j, w) ∷ m) h = ground (arith, contains_key-lookup k m)

  pub lookup-contains_key : (k : String) (m : Dict V) → lookup k m ≡ none → contains_key k m ≡ false
  unfolding lookup contains_key
  lookup-contains_key k [] h = refl
  lookup-contains_key k ((j, w) ∷ m) h = ground (arith, lookup-contains_key k m)

  pub lookup-insert :
      (key asked : String) (new : V) (d : Dict V)
      → lookup asked (insert key new d) ≡ (if key == asked then some new else lookup asked d)
  unfolding lookup insert
  lookup-insert key asked new [] = refl
  lookup-insert key asked new ((other, old) ∷ rest) = ground (
    arith,
    lookup-insert key asked new rest,
    eq_iff other asked,
    eq_iff other key,
    eq_iff key asked,
  )

  pub contains_key-insert :
      (k j : String) (v : V) (m : Dict V)
      → contains_key j (insert k v m) ≡ (if k == j then true else contains_key j m)
  unfolding contains_key insert
  contains_key-insert k j v [] = refl
  contains_key-insert k j v ((i, w) ∷ m) =
      ground (arith, eq_iff k j, eq_iff i k, eq_iff i j, contains_key-insert k j v m)

  pub contains_key-remove :
      (k j : String) (m : Dict V) → contains_key j m ≡ false → contains_key j (remove k m) ≡ false
  unfolding contains_key remove
  contains_key-remove k j [] h = refl
  contains_key-remove k j ((i, w) ∷ m) h = ground (arith, contains_key-remove k j m)

  pub contains_key-retain :
      (p : V → Bool) (j : String) (m : Dict V)
      → contains_key j m ≡ false
      → contains_key j (retain p m) ≡ false
  unfolding contains_key retain
  contains_key-retain p j [] h = refl
  contains_key-retain p j ((i, w) ∷ m) h = ground (arith, contains_key-retain p j m)

  pub lookup-remove :
      (k j : String) (m : Dict V)
      → Unique m
      → lookup j (remove k m) ≡ (if k == j then none else lookup j m)
  unfolding lookup remove
  lookup-remove k j [] u = ground arith
  lookup-remove k j ((i, w) ∷ m) u = ground (
    arith,
    eq_iff k j,
    eq_iff i k,
    eq_iff i j,
    lookup-remove k j m u.1,
    contains_key-lookup i m u.0,
  )

  -- What a retained key has passed the test, and nothing else is lost.
  abbrev pub passing : (V → Bool) → Option V → Option V
  passing p none = none
  passing p (some v) = if p v then some v else none

  pub lookup-retain :
      (p : V → Bool) (j : String) (m : Dict V)
      → Unique m
      → lookup j (retain p m) ≡ passing p (lookup j m)
  unfolding lookup retain
  lookup-retain p j [] u = refl
  lookup-retain p j ((i, w) ∷ m) u =
      ground (arith, eq_iff i j, lookup-retain p j m u.1, contains_key-lookup i m u.0)

  pub insert-Unique : (k : String) (v : V) (m : Dict V) → Unique m → Unique (insert k v m)
  unfolding insert contains_key
  insert-Unique k v [] u = (refl, tt)
  insert-Unique k v ((i, w) ∷ m) u =
      ground (arith, eq_iff i k, eq_iff k i, contains_key-insert k i v m, insert-Unique k v m u.1)

  pub remove-Unique : (k : String) (m : Dict V) → Unique m → Unique (remove k m)
  unfolding remove
  remove-Unique k [] u = tt
  remove-Unique k ((i, w) ∷ m) u = ground (arith, contains_key-remove k i m, remove-Unique k m u.1)

  pub retain-Unique : (p : V → Bool) (m : Dict V) → Unique m → Unique (retain p m)
  unfolding retain
  retain-Unique p [] u = tt
  retain-Unique p ((i, w) ∷ m) u = ground (arith, contains_key-retain p i m, retain-Unique p m u.1)

  pub length-insert :
      (k : String) (v : V) (m : Dict V)
      → length (insert k v m) ≡ (if contains_key k m then length m else suc (length m))
  unfolding insert contains_key
  length-insert k v [] = refl
  length-insert k v ((i, w) ∷ m) = ground (arith, length-insert k v m)

  pub length-remove-le : (k : String) (m : Dict V) → length (remove k m) ≤ length m
  unfolding remove
  length-remove-le k [] = omega arith
  length-remove-le k ((i, w) ∷ m) = ground (arith, length-remove-le k m)

  pub length-retain-le : (p : V → Bool) (m : Dict V) → length (retain p m) ≤ length m
  unfolding retain
  length-retain-le p [] = omega arith
  length-retain-le p ((i, w) ∷ m) = ground (arith, length-retain-le p m)

  pub insert-ne-nil : (k : String) (v : V) (m : Dict V) → is_empty (insert k v m) ≡ false
  unfolding insert
  insert-ne-nil k v [] = refl
  insert-ne-nil k v ((i, w) ∷ m) = ground arith
