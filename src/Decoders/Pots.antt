-- ===== src/Decoders/Pots.antt =====
-- decode_pot_bcd of decoders.py, and the packed bytes of the ladder.
use pottracker.Prelude.{ℕ, ◌+◌, ◌*◌, ◌/◌, ◌%◌, ◌<◌, ◌≡◌, ◌↔◌, some, arith}
use pottracker.Decoders.{decode_pot_bcd}

-- The byte in which the ladder stores a tool number of two decimal digits.
abbrev pub encode_bcd : ℕ → ℕ
encode_bcd tool = tool / 10 * 16 + tool % 10

-- Every tool number from 1 to 99 comes back from its packed byte.
pub decode_pot_bcd-encode_bcd :
    (tool : ℕ) → 0 < tool → tool < 100 → decode_pot_bcd (encode_bcd tool) ≡ some tool
unfolding decode_pot_bcd
decode_pot_bcd-encode_bcd tool low high = ground arith

-- A byte yields a tool exactly when it is the packed form of that tool, a number from 1 to 99: so no
-- two bytes yield one tool, and a byte that is no BCD yields none.
pub decode_pot_bcd_iff :
    (raw tool : ℕ)
    → raw < 256
    → (decode_pot_bcd raw ≡ some tool) ↔ ((0 < tool) × (tool < 100) × (raw ≡ encode_bcd tool))
unfolding decode_pot_bcd
decode_pot_bcd_iff raw tool h = ground arith
