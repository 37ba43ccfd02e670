-- ===== src/Handlers/Contract.antt =====
-- That the responses have the shape of docs/source-contract.md.
use bitcoin_price_tracker.Prelude.{◌==◌ as eq_ℕ}
use bitcoin_price_tracker.Prelude.{true, ◌≡◌, String}
use bitcoin_price_tracker.Float.{Float64}
use bitcoin_price_tracker.Models.Wire.{presence_value}
use bitcoin_price_tracker.Models.Contract.{is_presence_answer}
use bitcoin_price_tracker.Presence.{Presence}
use bitcoin_price_tracker.Handlers.{PresenceAnswer, RefreshNote}

module _ {W : Type 0} ⦃f : Float64 W⦄ where
  module _ (reason_text : RefreshNote → String) where
    -- An answer has the form that its status stands for.
    abbrev Answers : PresenceAnswer W → Type 0
    Answers a = is_presence_answer a.status (presence_value reason_text a.body a.error) ≡ true
