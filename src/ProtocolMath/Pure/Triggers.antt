-- ===== src/ProtocolMath/Pure/Triggers.antt =====
-- `isTpTriggered` and `isSlTriggered`.
use stellars_finance_contrac.Base.{Bool, true, false, ◌&&◌, ◌≡◌, arith}
use stellars_finance_contrac.Base.Int.{ℤ, ◌≤ℤ◌, ◌<ℤ◌}
use stellars_finance_contrac.ProtocolMath.Pure.{is_tp_triggered, is_sl_triggered}

-- A level that is set lies beyond the mark on the side that pays, or that loses.
abbrev pub OrderedLevels : Bool → ℤ → ℤ → Type 0
OrderedLevels true sl tp = sl <ℤ tp
OrderedLevels false sl tp = tp <ℤ sl

-- Where the stop loss lies on the losing side of the take profit, no mark triggers both.
pub triggers_exclusive :
    (tp sl mark : ℤ) (is_long : Bool)
    → OrderedLevels is_long sl tp
    → (is_tp_triggered tp mark is_long && is_sl_triggered sl mark is_long) ≡ false
unfolding is_tp_triggered is_sl_triggered
triggers_exclusive tp sl mark true h = ground arith
triggers_exclusive tp sl mark false h = ground arith

-- The second mark is at least as good as the first for a trader of that side.
abbrev pub AtLeastAsGood : Bool → ℤ → ℤ → Type 0
AtLeastAsGood true mark mark' = mark ≤ℤ mark'
AtLeastAsGood false mark mark' = mark' ≤ℤ mark

-- A triggered take profit stays triggered at every mark that is at least as good for the trader.
pub is_tp_triggered_mono :
    (level mark mark' : ℤ) (is_long : Bool)
    → AtLeastAsGood is_long mark mark'
    → is_tp_triggered level mark is_long ≡ true
    → is_tp_triggered level mark' is_long ≡ true
unfolding is_tp_triggered
is_tp_triggered_mono level mark mark' true h t = ground arith
is_tp_triggered_mono level mark mark' false h t = ground arith

-- A triggered stop loss stays triggered at every mark that is at least as bad for the trader.
pub is_sl_triggered_mono :
    (level mark mark' : ℤ) (is_long : Bool)
    → AtLeastAsGood is_long mark' mark
    → is_sl_triggered level mark is_long ≡ true
    → is_sl_triggered level mark' is_long ≡ true
unfolding is_sl_triggered
is_sl_triggered_mono level mark mark' true h t = ground arith
is_sl_triggered_mono level mark mark' false h t = ground arith
