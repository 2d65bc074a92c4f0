-- ===== src/Keeper/Scanner.antt =====
-- packages/keeper/src/scanner.ts: which positions to liquidate, and which one to deleverage.
pub mod Liquidations
pub mod Adl
use stellars_finance_contrac.Base.{
  Bool, true, false, Option, none, some, List, [], ◌∷◌, if◌then◌else◌,
}
use stellars_finance_contrac.Base.Int.{ℤ, pos, ◌*ℤ◌, ltb_ℤ, leb_ℤ, eqb_ℤ}
use stellars_finance_contrac.Base.Quot.{◌/ℤ◌}
use stellars_finance_contrac.Base.Dict.{Dict, get}
use stellars_finance_contrac.ProtocolMath.Constants.{bps}
use stellars_finance_contrac.ProtocolMath.Coerce.{to_big_int, to_position_state}
use stellars_finance_contrac.ProtocolMath.Tick.{MarketTick, evaluate}
use stellars_finance_contrac.Keeper.World.{
  KeeperConfig, PositionRow, ProtocolConfigRow, KeeperWorld,
}

pub record LiquidationCandidate : Type 0 where
  pub position : PositionRow
  pub health : ℤ

-- The two `??` defaults.
unfoldable pub threshold_bps : Option ProtocolConfigRow → KeeperConfig → ℤ
threshold_bps none config = config.liquidation_safety_margin_bps
threshold_bps (some row) config = row.liquidation_threshold_bps

unfoldable pub funding_cut_bps : Option ProtocolConfigRow → ℤ
funding_cut_bps none = pos 0
funding_cut_bps (some row) = row.funding_cut_bps

-- One round of the loop: the position's effective health, if it is under the threshold.
unfoldable pub candidate_at : Option MarketTick → ℤ → ℤ → PositionRow → Option LiquidationCandidate
candidate_at none threshold cut p = none
candidate_at (some tick) threshold cut p =
    let health = (evaluate tick (to_position_state p.columns) none cut).effective_health in
    if leb_ℤ (to_big_int p.columns.collateral *ℤ threshold /ℤ bps) health
    then none
    else some (record { position = p; health = health })

abbrev pub push {ℓ} : {A : Type ℓ} → Option A → List A → List A
push none xs = xs
push (some x) xs = x ∷ xs

unfoldable pub collect : Dict MarketTick → ℤ → ℤ → List PositionRow → List LiquidationCandidate
collect ticks threshold cut [] = []
collect ticks threshold cut (p ∷ ps) =
    push (candidate_at (get ticks p.symbol) threshold cut p) (collect ticks threshold cut ps)

-- `Array.prototype.sort` by health: stable, so a candidate stays before its equals.
unfoldable pub insert_by_health :
    LiquidationCandidate → List LiquidationCandidate → List LiquidationCandidate
insert_by_health c [] = c ∷ []
insert_by_health c (x ∷ xs) =
    if ltb_ℤ x.health c.health then x ∷ insert_by_health c xs else c ∷ x ∷ xs

unfoldable pub sort_by_health : List LiquidationCandidate → List LiquidationCandidate
sort_by_health [] = []
sort_by_health (c ∷ cs) = insert_by_health c (sort_by_health cs)

unfoldable pub scan_liquidation_candidates : KeeperWorld → KeeperConfig → List LiquidationCandidate
scan_liquidation_candidates world config = sort_by_health (
    collect world.ticks (threshold_bps world.protocol_config config)
      (funding_cut_bps world.protocol_config) world.positions)

-- The score of a position, if the loop gets as far as computing it.
unfoldable pub score_at : Option MarketTick → PositionRow → Option ℤ
score_at none p = none
score_at (some tick) p =
    let collateral = to_big_int p.columns.collateral in
    let pnl = (evaluate tick (to_position_state p.columns) none (pos 0)).pnl in
    if eqb_ℤ collateral (pos 0)
    then none
    else (if leb_ℤ pnl (pos 0) then none else some (pnl *ℤ to_big_int p.columns.size /ℤ collateral))

-- `best` and `bestScore`.
abbrev pub Best : Type 0
Best = Option PositionRow × ℤ

abbrev pub improve : Option ℤ → PositionRow → Best → Best
improve none p best = best
improve (some score) p best = if ltb_ℤ best.1 score then (some p, score) else best

unfoldable pub best_of : Dict MarketTick → List PositionRow → Best → Best
best_of ticks [] best = best
best_of ticks (p ∷ ps) best = best_of ticks ps (improve (score_at (get ticks p.symbol) p) p best)

unfoldable pub find_adl_target : KeeperWorld → Option PositionRow
find_adl_target world = (best_of world.ticks world.positions (none, pos 0)).0
