-- ===== src/Frame/Replay/Examples.antt =====
-- Runs of the replay window, and its theorems at concrete inputs.
use landscape_rill.Base.{◌≡◌, refl, true, false, arith}
use landscape_rill.Frame.Replay.{ReplayWindow, new_window, advance, mark, check_and_mark}
use landscape_rill.Frame.Replay.Again.{check_and_mark-again}
use landscape_rill.Frame.Replay.Forgets.{check_and_mark-forgets}

-- The window that has accepted 600.
abbrev after_600 : ReplayWindow
after_600 = (check_and_mark new_window 600).0

accepted_600 : (check_and_mark new_window 600).1 ≡ true
unfolding check_and_mark advance mark
accepted_600 = refl

after_600_base : after_600.base ≡ 0
unfolding check_and_mark advance mark
after_600_base = refl

check_and_mark-again_example : (check_and_mark (check_and_mark new_window 600).0 600).1 ≡ false
check_and_mark-again_example = check_and_mark-again new_window 600 refl

-- 600 is accepted a second time behind 1500.
check_and_mark-forgets_example : (check_and_mark (check_and_mark after_600 1500).0 600).1 ≡ true
check_and_mark-forgets_example =
    check_and_mark-forgets after_600 1500 600 (omega (arith, after_600_base)) (omega arith)
      (omega arith)
