-- ===== src/Frame/Replay.antt =====
-- rill-core/src/frame/mod.rs: `ReplayWindow`, sixteen words of 64 bits from the number `base` on.
pub mod Again
pub mod Forgets
mod Examples
use landscape_rill.Base.{
  ℕ, ◌+◌, ◌-◌, ◌^◌, ◌/◌, ◌%◌, ◌==◌, Bool, true, false, List, get_or, set, replicate, ltb, leb,
  if◌then◌else◌,
}

pub record ReplayWindow : Type 0 where
  pub base : ℕ
  pub bitmap : List ℕ

abbrev pub new_window : ReplayWindow
new_window = record { base = 0; bitmap = replicate 16 0 }

-- `word & bit != 0` for `bit = 1 << b`.
abbrev pub has_bit : ℕ → ℕ → Bool
has_bit word b = word / 2 ^ b % 2 == 1

-- The window that has room for `seq`.
unfoldable pub advance : ReplayWindow → ℕ → ReplayWindow
advance w seq =
    if leb (w.base + 1024) seq
    then record { base = w.base + ((seq - w.base + 1) - 1024); bitmap = replicate 16 0 }
    else w

-- The test and the mark of a slot; `|=` of a bit that is not set adds it.
unfoldable pub mark : ReplayWindow → ℕ → ReplayWindow × Bool
mark w slot =
    let word = get_or w.bitmap (slot / 64) 0 in
    if has_bit word (slot % 64)
    then (w, false)
    else (record w { bitmap = set w.bitmap (slot / 64) (word + 2 ^ (slot % 64)) }, true)

unfoldable pub check_and_mark : ReplayWindow → ℕ → ReplayWindow × Bool
check_and_mark w seq =
    let v = advance w seq in if ltb seq w.base then (w, false) else mark v (seq - v.base)
