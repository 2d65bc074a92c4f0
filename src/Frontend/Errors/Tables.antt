-- ===== src/Frontend/Errors/Tables.antt =====
-- packages/frontend/src/lib/contract-errors.ts: the tables of the contracts' errors and of the
-- network's result codes.
use stellars_finance_contrac.Base.{ℕ, List, [], ◌∷◌}
use stellars_finance_contrac.Base.Dict.{Dict}
use Prim.Native.String.{String}

pub record Variant : Type 0 where
  pub name : String
  pub message : String

-- `by` lists the variants with their codes.
pub record ErrorTable : Type 0 where
  pub contract : String
  pub by : List (ℕ × Variant)

abbrev variant : ℕ → String → String → ℕ × Variant
variant code name message = (code, record { name = name; message = message })

unfoldable pub position_manager_errors : ErrorTable
position_manager_errors = record {
  contract = "PositionManager";
  by =
      variant 1 "AlreadyInitialized" "Position manager already initialized."
      ∷ variant 2 "NotInitialized" "Position manager not initialized yet."
      ∷ variant 3 "Paused" "Trading is paused."
      ∷ variant 4 "UtilizationCapBreached"
          "Trade would push vault utilization past 85%. Try a smaller size."
      ∷ variant 5 "PositionNotOldEnough"
          "Position is too young to close. Wait for the minimum lifetime."
      ∷ variant 6 "PositionNotFound" "Position not found."
      ∷ variant 7 "Unauthorized" "Not authorized for this action."
      ∷ variant 8 "ZeroAmount" "Amount must be greater than zero."
      ∷ variant 9 "HealthFactorOk" "Position is still healthy — can't be liquidated."
      ∷ variant 10 "AdlNotTriggered" "ADL conditions not met."
      ∷ variant 11 "ExcessiveLeverage" "Leverage exceeds this market's maximum."
      ∷ variant 12 "MarketNotConfigured" "Market isn't configured. Try a different symbol."
      ∷ variant 13 "OrderNotTriggered" "TP/SL trigger price not reached."
      ∷ variant 14 "InvalidTpSl" "Invalid TP/SL price for this position direction."
      ∷ variant 15 "DirectionMismatch" "Existing position is on the opposite side. Close it first."
      ∷ variant 16 "BelowMinCollateral" "Collateral is below the protocol minimum."
      ∷ variant 17 "AdlTargetNotProfitable" "ADL target position isn't profitable."
      ∷ variant 18 "LeverageCapExceeded" "Max leverage exceeds the safety cap (200×)."
      ∷ variant 19 "SlippageExceeded"
          "Mark price moved past your slippage tolerance. Raise slippage or retry."
      ∷ variant 20 "LeverageBelowFloor" "Max leverage is below the protocol floor."
      ∷ variant 21 "MarketDisabled" "This market is disabled for opens. Closes still work."
      ∷ variant 22 "SizeDeltaExceedsPosition" "Close size exceeds the open position size."
      ∷ variant 23 "NoPendingUpgrade" "No pending upgrade to commit."
      ∷ variant 24 "UpgradeTimelockNotElapsed" "Upgrade timelock has not elapsed yet."
      ∷ variant 25 "UpgradeHashMismatch" "Proposed and committed WASM hashes don't match."
      ∷ [];
}

unfoldable pub vault_errors : ErrorTable
vault_errors = record {
  contract = "Vault";
  by =
      variant 1 "AlreadyInitialized" "Vault already initialized."
      ∷ variant 2 "NotInitialized" "Vault not initialized yet."
      ∷ variant 3 "Paused" "Vault is paused."
      ∷ variant 4 "InsufficientFreeLiquidity"
          "Not enough free liquidity to satisfy this withdrawal."
      ∷ variant 5 "Unauthorized" "Not authorized for this vault action."
      ∷ variant 6 "ZeroAmount" "Amount must be greater than zero."
      ∷ variant 7 "NotPositionManager" "Only the position manager can call this."
      ∷ variant 8 "CooldownNotElapsed" "LP withdrawal cooldown hasn't elapsed yet."
      ∷ variant 9 "ReservationExceedsTotalAssets" "Reservation exceeds vault's total assets."
      ∷ variant 10 "InsufficientFees" "Not enough unclaimed fees for this claim."
      ∷ [];
}

unfoldable pub oracle_router_errors : ErrorTable
oracle_router_errors = record {
  contract = "OracleRouter";
  by =
      variant 1 "AlreadyInitialized" "Oracle router already initialized."
      ∷ variant 2 "NotInitialized" "Oracle router not initialized yet."
      ∷ variant 3 "Unauthorized" "Not authorized for oracle action."
      ∷ variant 4 "StalePrice" "Price is stale — oracle hasn't updated recently."
      ∷ variant 5 "PriceDeviationTooHigh" "Oracle sources disagree too much; price rejected."
      ∷ variant 6 "NoPriceSources" "No oracle sources configured for this symbol."
      ∷ variant 7 "PriceFetchFailed" "Oracle source call failed."
      ∷ variant 8 "InvalidConfig" "Invalid oracle configuration."
      ∷ [];
}

unfoldable pub config_manager_errors : ErrorTable
config_manager_errors = record {
  contract = "ConfigManager";
  by =
      variant 1 "AlreadyInitialized" "Config manager already initialized."
      ∷ variant 2 "NotInitialized" "Config manager not initialized yet."
      ∷ variant 3 "Unauthorized" "Not authorized to change protocol config."
      ∷ variant 4 "InvalidFeeSplits" "Fee split values must sum to 10_000 bps."
      ∷ variant 5 "InvalidLimits" "Protocol limit value is out of acceptable range."
      ∷ [];
}

unfoldable pub oracle_errors : ErrorTable
oracle_errors = record {
  contract = "Oracle";
  by =
      variant 1 "AlreadyInitialized" "Oracle already initialized."
      ∷ variant 2 "NotInitialized" "Oracle not initialized yet."
      ∷ variant 3 "Unauthorized" "Not authorized to write oracle prices."
      ∷ variant 4 "NoPriceSet" "No price has been published for this symbol yet."
      ∷ [];
}

unfoldable pub tx_result_messages : Dict String
tx_result_messages =
    ("txSuccess", "Transaction succeeded.")
    ∷ ("txFailed", "Transaction failed.")
    ∷ ("txTooEarly", "Transaction submitted before its valid time window.")
    ∷ ("txTooLate", "Transaction expired before submission.")
    ∷ ("txMissingOperation", "Transaction has no operations.")
    ∷ ("txBadSeq", "Wrong account sequence number — try refreshing and resubmitting.")
    ∷ ("txBadAuth", "Bad signature on the transaction.")
    ∷ ("txInsufficientBalance", "Source account doesn't have enough XLM to pay the fee.")
    ∷ ("txNoAccount", "Source account doesn't exist on-chain.")
    ∷ ("txInsufficientFee", "Fee is below the network minimum.")
    ∷ ("txBadAuthExtra", "Extra signatures attached to the transaction.")
    ∷ ("txInternalError", "Stellar core hit an internal error.")
    ∷ ("txNotSupported", "Transaction type not supported by this network.")
    ∷ ("txFeeBumpInnerFailed", "The inner fee-bump transaction failed.")
    ∷ ("txBadSponsorship", "Sponsorship structure is invalid.")
    ∷ ("txBadMinSeqAgeOrGap", "Minimum sequence age/gap precondition not met.")
    ∷ ("txMalformed", "Transaction is malformed — likely a build/sign mismatch.")
    ∷ ("txSorobanInvalid", "Soroban transaction failed validation.")
    ∷ []
