-- ===== src/Ui/Tag.antt =====
-- Texts without white space and commas, such as an entity tag, under the operations that read a list of
-- them.
use Prim.Native.Char.{Char, code}
use bitcoin_price_tracker.Prelude.{
  ℕ, zero, suc, ◌≡◌, refl, ap, ◌∙◌, Bool, true, false, not, ◌&&◌, ltb, [], ◌∷◌, String,
  if◌then◌else◌, arith, ◌==◌, length, ◌<◌, ◌/◌, ◌%◌, ◌^◌,
}
use bitcoin_price_tracker.Prelude.Text.{codes, is_whitespace, trim_start, trim_end, trim}
use bitcoin_price_tracker.Ui.{hex_digits, char_after, hex_from, etag_text, split_commas}

-- The visible characters, less the space and the comma.
abbrev pub is_plain : ℕ → Bool
is_plain c = ltb 32 c && ltb c 127 && not (c == b',')

abbrev pub IsPlain : String → Type 0
IsPlain String.[] = Unit
IsPlain (String.◌∷◌ c s) = (is_plain (code c) ≡ true) × IsPlain s

is_plain-is_whitespace : (c : ℕ) → is_plain c ≡ true → is_whitespace c ≡ false
is_plain-is_whitespace c h = ground arith

trim_start-IsPlain : (s : String) → IsPlain s → trim_start s ≡ s
unfolding trim_start
trim_start-IsPlain String.[] h = refl
trim_start-IsPlain (String.◌∷◌ c s) (h, hs) = ground (arith, is_plain-is_whitespace (code c) h)

-- One step of `trim_end`.
plain_end :
    (c : Char) (s : String)
    → is_plain (code c) ≡ true
    → elim s as (λ x. String) [
      | String.[] ↦ if is_whitespace (code c) then String.[] else String.◌∷◌ c String.[]
      | String.◌∷◌ d t ↦ String.◌∷◌ c (String.◌∷◌ d t)
    ]
      ≡ String.◌∷◌ c s
plain_end c String.[] h = ground (arith, is_plain-is_whitespace (code c) h)
plain_end c (String.◌∷◌ d t) h = refl

trim_end-IsPlain : (s : String) → IsPlain s → trim_end s ≡ s
unfolding trim_end
trim_end-IsPlain String.[] h = refl
trim_end-IsPlain (String.◌∷◌ c s) (h, hs) = rw (trim_end-IsPlain s hs, plain_end c s h)

pub trim-IsPlain : (s : String) → IsPlain s → trim s ≡ s
unfolding trim
trim-IsPlain s h = ap trim_end (trim_start-IsPlain s h) ∙ trim_end-IsPlain s h

pub split_commas-IsPlain : (s : String) → IsPlain s → split_commas s ≡ s ∷ []
unfolding split_commas
split_commas-IsPlain String.[] h = refl
split_commas-IsPlain (String.◌∷◌ c s) (h, hs) = ground (arith, split_commas-IsPlain s hs)

char_after-is_plain :
    (n : ℕ) (s : String)
    → IsPlain s
    → n < length (codes s)
    → is_plain (code (char_after n s)) ≡ true
char_after-is_plain n String.[] p h = ground (arith, h)
char_after-is_plain zero (String.◌∷◌ c s) (p, ps) h = p
char_after-is_plain (suc n) (String.◌∷◌ c s) (p, ps) h =
    char_after-is_plain n s ps (omega (arith, h))

hex_digits-IsPlain : IsPlain hex_digits
hex_digits-IsPlain = (
  refl,
  (
    refl,
    (
      refl,
      (
        refl,
        (
          refl,
          (
            refl,
            (refl, (refl, (refl, (refl, (refl, (refl, (refl, (refl, (refl, (refl, tt)))))))))),
          ),
        ),
      ),
    ),
  ),
)

hex_from-IsPlain : (k n : ℕ) (tail : String) → IsPlain tail → IsPlain (hex_from k n tail)
unfolding hex_from
hex_from-IsPlain zero n tail h = h
hex_from-IsPlain (suc k) n tail h = (
  char_after-is_plain (n / 16 ^ k % 16) hex_digits hex_digits-IsPlain (omega arith),
  hex_from-IsPlain k n tail h,
)

pub etag_text-IsPlain : (n : ℕ) → IsPlain (etag_text n)
etag_text-IsPlain n = (refl, (refl, (refl, hex_from-IsPlain 16 n "\"" (refl, tt))))
