-- ===== src/Source.antt =====
-- The configured providers: `UpstreamSource` of src/pricing.rs, and arrays with a slot for each.
use bitcoin_price_tracker.Prelude.{
  ℕ, zero, suc, ◌<◌, ◌≡◌, refl, Bool, true, false, List, [], ◌∷◌, String, arith, any,
}

pub data UpstreamSource : Type 0 where
  coin_gecko coinbase kraken gemini : UpstreamSource

-- `UpstreamSource::ALL`.
abbrev pub all_sources : List UpstreamSource
all_sources = coin_gecko ∷ coinbase ∷ kraken ∷ gemini ∷ []

abbrev pub source_count : ℕ
source_count = 4

-- `UpstreamSource::ALL[index]`, for an index below 4.
abbrev pub source_at : ℕ → UpstreamSource
source_at zero = coin_gecko
source_at (suc zero) = coinbase
source_at (suc (suc zero)) = kraken
source_at (suc (suc (suc _))) = gemini

-- `ALL.iter().position(|candidate| candidate == source).unwrap()`.
abbrev pub index_of : UpstreamSource → ℕ
index_of coin_gecko = 0
index_of coinbase = 1
index_of kraken = 2
index_of gemini = 3

abbrev pub name : UpstreamSource → String
name coin_gecko = "CoinGecko"
name coinbase = "Coinbase"
name kraken = "Kraken"
name gemini = "Gemini"

-- The derived `PartialEq`.
abbrev pub same_source : UpstreamSource → UpstreamSource → Bool
same_source coin_gecko coin_gecko = true
same_source coinbase coinbase = true
same_source kraken kraken = true
same_source gemini gemini = true
same_source _ _ = false

-- `[T; 4]`, indexed as `ALL` is; an index at or above 4 never occurs.
pub record Array4 {ℓ} (A : Type ℓ) : Type ℓ where
  pub at0 : A
  pub at1 : A
  pub at2 : A
  pub at3 : A

module _ {ℓ} {A : Type ℓ} where
  abbrev pub get : Array4 A → ℕ → A
  get a zero = a.at0
  get a (suc zero) = a.at1
  get a (suc (suc zero)) = a.at2
  get a (suc (suc (suc _))) = a.at3

  abbrev pub set : Array4 A → ℕ → A → Array4 A
  set a zero v = record a { at0 = v }
  set a (suc zero) v = record a { at1 = v }
  set a (suc (suc zero)) v = record a { at2 = v }
  set a (suc (suc (suc _))) v = record a { at3 = v }

  abbrev pub filled : A → Array4 A
  filled v = record { at0 = v; at1 = v; at2 = v; at3 = v }

pub source_at-index_of : (s : UpstreamSource) → source_at (index_of s) ≡ s
source_at-index_of coin_gecko = refl
source_at-index_of _ = refl

pub index_of-lt : (s : UpstreamSource) → index_of s < source_count
index_of-lt coin_gecko = omega arith
index_of-lt _ = omega arith

-- `sources.contains(&source)`.
abbrev pub is_chosen : UpstreamSource → List UpstreamSource → Bool
is_chosen p = any (same_source p)

-- No provider stands twice in the list.
abbrev pub Distinct : List UpstreamSource → Type 0
Distinct [] = Unit
Distinct (p ∷ ps) = (is_chosen p ps ≡ false) × Distinct ps

pub same_source_refl : (p : UpstreamSource) → same_source p p ≡ true
same_source_refl coin_gecko = refl
same_source_refl _ = refl

pub same_source-eq : (p q : UpstreamSource) → same_source p q ≡ true → p ≡ q
same_source-eq coin_gecko coin_gecko h = refl
same_source-eq coinbase coinbase h = refl
same_source-eq kraken kraken h = refl
same_source-eq gemini gemini h = refl
same_source-eq _ _ h = cc

pub get-set_ne {ℓ} :
    {A : Type ℓ} (a : Array4 A) (p q : UpstreamSource) (v : A)
    → same_source p q ≡ false
    → get (set a (index_of q) v) (index_of p) ≡ get a (index_of p)
get-set_ne a coin_gecko coin_gecko v h = cc
get-set_ne a coinbase coinbase v h = cc
get-set_ne a kraken kraken v h = cc
get-set_ne a gemini gemini v h = cc
get-set_ne a coin_gecko _ v h = refl
get-set_ne a coinbase coin_gecko v h = refl
get-set_ne a coinbase _ v h = refl
get-set_ne a kraken coin_gecko v h = refl
get-set_ne a kraken _ v h = refl
get-set_ne a gemini coin_gecko v h = refl
get-set_ne a gemini _ v h = refl

pub get-set_self {ℓ} :
    {A : Type ℓ} (a : Array4 A) (p : UpstreamSource) (v : A)
    → get (set a (index_of p) v) (index_of p) ≡ v
get-set_self a coin_gecko v = refl
get-set_self a _ v = refl
