-- ===== src/Keeper/Loop/Warrant.antt =====
-- Why each action of the loops may be taken.
use stellars_finance_contrac.Base.{
  Bool, true, false, not, ◌&&◌, ◌||◌, Option, none, some, List, ◌≡◌, ◌≢◌, ◌⊎◌, inl, inr, arith, All,
  In, Bool-cases,
}
use stellars_finance_contrac.Base.Int.{ℤ, pos, ◌+ℤ◌, ◌-ℤ◌, ◌*ℤ◌, ◌≤ℤ◌, ◌<ℤ◌, eqb_ℤ, ltb_ℤ}
use stellars_finance_contrac.Base.Quot.{◌/ℤ◌}
use stellars_finance_contrac.Base.Dict.{get}
use stellars_finance_contrac.ProtocolMath.Constants.{bps}
use stellars_finance_contrac.ProtocolMath.Coerce.{to_big_int, optional_chain}
use stellars_finance_contrac.ProtocolMath.Tick.{MarketTick, is_tp_triggered, is_sl_triggered}
use stellars_finance_contrac.Keeper.World.{
  KeeperConfig, PositionRow, MarketRow, VaultStateRow, ProtocolConfigRow, KeeperWorld,
}
use stellars_finance_contrac.Keeper.Scanner.{LiquidationCandidate, threshold_bps, funding_cut_bps}
use stellars_finance_contrac.Keeper.Scanner.Liquidations.{IsUnder}
use stellars_finance_contrac.Keeper.Scanner.Adl.{IsTarget}
use stellars_finance_contrac.Keeper.Loop.{
  Action, Submission, is_paused, is_index_stale, is_order_due, is_adl_due,
}

-- The market has open interest, and its indices are older than the threshold.
abbrev pub NeedsIndices : KeeperWorld → KeeperConfig → MarketRow → Type 0
NeedsIndices world config m =
    (to_big_int m.columns.long_open_interest +ℤ to_big_int m.columns.short_open_interest ≢ pos 0)
    × (config.index_update_threshold_sec <ℤ world.now -ℤ to_big_int m.columns.last_index_update)

-- The position's take profit or stop loss is set and triggered at its market's tick, and it is old
-- enough.
abbrev pub NeedsOrder : KeeperWorld → PositionRow → Option MarketTick → Type 0
NeedsOrder world p none = ⊥
NeedsOrder world p (some tick) =
    ((to_big_int p.take_profit ≢ pos 0) ⊎ (to_big_int p.stop_loss ≢ pos 0))
    × (to_big_int (optional_chain world.protocol_config (λ c. c.min_position_lifetime))
        ≤ℤ world.now -ℤ to_big_int p.last_increased_time)
    × ((is_tp_triggered tick (to_big_int p.take_profit) p.columns.is_long ≡ true)
        ⊎ (is_sl_triggered tick (to_big_int p.stop_loss) p.columns.is_long ≡ true))

-- The vault holds assets, and its traders' profit or its reserve is past the limit.
abbrev pub NeedsAdl : Option VaultStateRow → Option ProtocolConfigRow → Type 0
NeedsAdl none config = ⊥
NeedsAdl (some vault) none = ⊥
NeedsAdl (some vault) (some config) =
    (pos 0 <ℤ to_big_int vault.liquidity.total_assets)
    × (((pos 0 <ℤ to_big_int vault.net_global_trader_pnl)
          × (config.adl_pnl_bps
              <ℤ to_big_int vault.net_global_trader_pnl
                *ℤ bps
                /ℤ to_big_int vault.liquidity.total_assets))
        ⊎ (config.adl_utilization_bps
            <ℤ to_big_int vault.liquidity.reserved_usdc
              *ℤ bps
              /ℤ to_big_int vault.liquidity.total_assets))

-- Why an action may be taken.
abbrev pub Warranted : KeeperWorld → KeeperConfig → Action → Type 0
Warranted world config (Action.update_indices symbol) =
    (is_paused world.vault ≡ false)
    × (m : MarketRow) × (symbol ≡ m.symbol)
    × In m world.markets
    × NeedsIndices world config m
Warranted world config (Action.execute_order trader symbol) =
    (p : PositionRow) × (trader ≡ p.trader)
    × (symbol ≡ p.symbol)
    × In p world.positions
    × NeedsOrder world p (get world.ticks p.symbol)
Warranted world config (Action.deleverage_position trader symbol) =
    (p : PositionRow) × (trader ≡ p.trader)
    × (symbol ≡ p.symbol)
    × NeedsAdl world.vault world.protocol_config
    × IsTarget world.ticks world.positions (some p)
Warranted world config (Action.liquidate_position trader symbol) =
    (c : LiquidationCandidate) × (trader ≡ c.position.trader)
    × (symbol ≡ c.position.symbol)
    × In c.position world.positions
    × IsUnder (get world.ticks c.position.symbol) (threshold_bps world.protocol_config config)
        (funding_cut_bps world.protocol_config) c

pub is_index_stale-NeedsIndices :
    (world : KeeperWorld) (config : KeeperConfig) (m : MarketRow)
    → is_index_stale world config m ≡ true
    → NeedsIndices world config m
unfolding is_index_stale
is_index_stale-NeedsIndices world config m h = (λ e. ground arith, ground arith)

one_is_set :
    (tp sl : ℤ) → not (eqb_ℤ tp (pos 0) && eqb_ℤ sl (pos 0)) ≡ true → (tp ≢ pos 0) ⊎ (sl ≢ pos 0)
one_is_set tp sl h = elim (Bool-cases (eqb_ℤ tp (pos 0))) [
  | inl e ↦ inr (λ z. ground arith)
  | inr e ↦ inl (λ z. ground arith)
]

&&-true : (a b : Bool) → (a && b) ≡ true → (a ≡ true) × (b ≡ true)
&&-true a b h = ground arith

||-true : (a b : Bool) → (a || b) ≡ true → (a ≡ true) ⊎ (b ≡ true)
||-true a b h = ground arith

not_ltb : (a b : ℤ) → not (ltb_ℤ a b) ≡ true → b ≤ℤ a
not_ltb a b h = ground arith

pub is_order_due-NeedsOrder :
    (world : KeeperWorld) (p : PositionRow) (tick : Option MarketTick)
    → is_order_due world p tick ≡ true
    → NeedsOrder world p tick
unfolding is_order_due
is_order_due-NeedsOrder world p none h = cc
is_order_due-NeedsOrder world p (some tick) h =
    let (first, triggered) = &&-true _ _ h in
    let (set_levels, old) = &&-true _ _ first in
    (
      one_is_set (to_big_int p.take_profit) (to_big_int p.stop_loss) set_levels,
      not_ltb (world.now -ℤ to_big_int p.last_increased_time)
          (to_big_int (optional_chain world.protocol_config (λ c. c.min_position_lifetime))) old,
      ||-true _ _ triggered,
    )

pub is_adl_due-NeedsAdl :
    (vault : Option VaultStateRow) (config : Option ProtocolConfigRow)
    → is_adl_due vault config ≡ true
    → NeedsAdl vault config
unfolding is_adl_due
is_adl_due-NeedsAdl none config h = cc
is_adl_due-NeedsAdl (some vault) none h = cc
is_adl_due-NeedsAdl (some vault) (some config) h = ground arith

-- Every logged action is warranted.
abbrev pub AllWarranted : KeeperWorld → KeeperConfig → List Submission → Type 0
AllWarranted world config log = All (λ x. Warranted world config x.action) log
