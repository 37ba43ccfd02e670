-- ===== src/Presence/Sessions.antt =====
-- Session names, and when a request is let through to the coordinator.
use bitcoin_price_tracker.Prelude.{
  ℕ, ◌≤◌, ◌<◌, ◌≡◌, ◌↔◌, refl, true, false, ◌⊎◌, List, [], ◌∷◌, none, some, String, arith, length,
  is_empty, all, All, ℤ, pos, ◌≤ℤ◌, ltb_ℤ, ◌-ℤ◌, -ℤ_parts, in_i64,
}
use bitcoin_price_tracker.Prelude.Text.{codes}
use bitcoin_price_tracker.Time.{UnixTime, refresh_interval_seconds}
use bitcoin_price_tracker.Models.{SnapshotRecord}
use bitcoin_price_tracker.Presence.{
  age_of, snapshot_age_seconds, refresh_skip_reason, utf8_len, is_session_char, is_valid_session_id,
}

utf8_len-ascii : (cs : List ℕ) → all is_session_char cs ≡ true → utf8_len cs ≡ length cs
utf8_len-ascii [] h = refl
utf8_len-ascii (c ∷ cs) h = ground (arith, utf8_len-ascii cs)

-- The values that the test of a character accepts.
abbrev pub IsSessionChar : ℕ → Type 0
IsSessionChar c =
    ((b'0' ≤ c) × (c ≤ b'9'))
    ⊎ ((b'A' ≤ c) × (c ≤ b'Z'))
    ⊎ ((b'a' ≤ c) × (c ≤ b'z'))
    ⊎ (c ≡ 45)
    ⊎ (c ≡ 95)

all-IsSessionChar : (cs : List ℕ) → all is_session_char cs ≡ true → All IsSessionChar cs
all-IsSessionChar [] h = tt
all-IsSessionChar (c ∷ cs) h = (ground arith, all-IsSessionChar cs (ground arith))

-- A valid session id has 1 to 128 characters, each an ASCII letter, an ASCII digit, `-` or `_`.
pub is_valid_session_id_sound :
    (session_id : String)
    → is_valid_session_id session_id ≡ true
    → (0 < length (codes session_id))
      × (length (codes session_id) ≤ 128)
      × All IsSessionChar (codes session_id)
unfolding is_valid_session_id
is_valid_session_id_sound s h =
    let chars : all is_session_char (codes s) ≡ true = ground arith in
    (
      nonempty (codes s) (ground arith),
      ground (arith, utf8_len-ascii (codes s)),
      all-IsSessionChar (codes s) chars,
    )
  where
    nonempty : (cs : List ℕ) → is_empty cs ≡ false → 0 < length cs
    nonempty [] e = cc
    nonempty (c ∷ cs) e = omega arith

-- An age is never negative: a snapshot dated in the future has none, and any other has the time
-- since it was fetched, unless the difference leaves an `i64`.
pub age_of_lem :
    (at now : UnixTime)
    → ((age : ℤ) → age_of at now ≡ some age → (pos 0 ≤ℤ age) × (age ≡ now -ℤ at) × (at ≤ℤ now))
      × (ltb_ℤ now at ≡ true → age_of at now ≡ none)
      × (at ≤ℤ now → in_i64 (now -ℤ at) ≡ true → age_of at now ≡ some (now -ℤ at))
unfolding age_of
age_of_lem at now = (
  λ age h. ground (arith, -ℤ_parts now at),
  λ h. ground (arith, -ℤ_parts now at),
  λ h i. ground (arith, -ℤ_parts now at),
)

-- With a stored snapshot, a request gets past this test exactly when somebody is watching and the
-- snapshot is at least ten seconds old, is dated in the future, or has an age beyond an `i64`.
pub refresh_skip_reason-none_iff :
    {W : Type 0} (viewers : ℕ) (snapshot : SnapshotRecord W) (now : UnixTime)
    → (refresh_skip_reason viewers (snapshot_age_seconds snapshot now) ≡ none) ↔ (
        (0 < viewers)
        × ((ltb_ℤ now snapshot.fetched_at_unix ≡ true)
            ⊎ (in_i64 (now -ℤ snapshot.fetched_at_unix) ≡ false)
            ⊎ (pos refresh_interval_seconds ≤ℤ (now -ℤ snapshot.fetched_at_unix))))
unfolding refresh_skip_reason snapshot_age_seconds
refresh_skip_reason-none_iff viewers s now = (
  λ h. ground (arith, -ℤ_parts now s.fetched_at_unix),
  λ h. ground (arith, -ℤ_parts now s.fetched_at_unix),
)
