-- ===== src/Frontend/Tests.antt =====
-- The client's theorems at a small desktop, an error and a submission.
use stellars_finance_contrac.Base.{
  ℕ, zero, suc, ◌*◌, ◌≡◌, refl, false, Option, none, some, [], ◌∷◌, IsUnique, arith,
}
use stellars_finance_contrac.Base.Int.{pos}
use stellars_finance_contrac.Base.Dict.{get}
use stellars_finance_contrac.ProtocolMath.Coerce.{Stringy}
use stellars_finance_contrac.Keeper.World
use stellars_finance_contrac.Keeper.World.{MarketRow, Tables, load_keeper_world}
use stellars_finance_contrac.Frontend.Split.{split, cut}
use stellars_finance_contrac.Frontend.Windows.{
  AppKind, window_id, lacks_symbol, parse_window_id, Desktop, ids_of, ids, focused_id, open_window,
  keep_known, kind_of,
}
use stellars_finance_contrac.Frontend.Windows.Ids.{parse_window_id-window_id}
use stellars_finance_contrac.Frontend.Windows.Calls.{Call, perform, perform-IsUnique}
use stellars_finance_contrac.Frontend.Windows.Focus.{open_window-focused_id}
use stellars_finance_contrac.Frontend.Errors.Tables.{Variant, vault_errors}
use stellars_finance_contrac.Frontend.Errors.{
  Contracts, Pattern, Runtime, Thrown, stringify_error, variant_at, to_error_message,
}
use stellars_finance_contrac.Frontend.Errors.Labels.{to_error_message-own}
use stellars_finance_contrac.Frontend.Errors.Lookup.{Contract, address_of, table_of}
use stellars_finance_contrac.Frontend.Sender.{Ending, Lookup, rounds, wait_loop}
use stellars_finance_contrac.Frontend.Sender.Waiting.{Ends, wait_loop-Ends}
use stellars_finance_contrac.Frontend.Tick.{use_market_tick}
use stellars_finance_contrac.Frontend.Tick.Agrees.{
  columns_at, vault_row, config_row, use_market_tick-ticks,
}
use stellars_finance_contrac.Frontend.Tick.Joins.{market_at, price_rows}
use Prim.Native.String.{String}
use text.Mathlib.TextEquality.{eq_iff}
use mathlib.Core.Option.{some-injective}

parse_window_id-window_id_example :
    parse_window_id (window_id AppKind.trade (some "XLM"))
    ≡ some (record { kind = AppKind.trade; param = some "XLM" })
unfolding lacks_symbol
parse_window_id-window_id_example =
    parse_window_id-window_id AppKind.trade (some "XLM") refl
      (λ e. ground (arith, eq_iff "XLM" "", some-injective "XLM" "" e))

abbrev desktop : Desktop
desktop = record { w = some "vault,trade:XLM"; flags = [] }

perform-IsUnique_example : IsUnique (ids (perform (Call.focuses "vault") desktop))
unfolding ids_of keep_known split parse_window_id cut kind_of lacks_symbol
perform-IsUnique_example =
    perform-IsUnique (Call.focuses "vault") desktop tt
      ((λ e. ground (arith, eq_iff "vault" "trade:XLM", e), tt), (tt, tt))

open_window-focused_id_example :
    focused_id (open_window AppKind.vault none desktop) ≡ some (window_id AppKind.vault none)
unfolding lacks_symbol
open_window-focused_id_example = open_window-focused_id AppKind.vault none desktop refl tt

abbrev contracts : Contracts
contracts = record {
  position_manager = "CP";
  vault = "CV";
  oracle_router = "CO";
  config_manager = "CC";
  oracle = "";
}

abbrev matched : Pattern → String → Option String
matched Pattern.contract_error s = some "8"
matched Pattern.contract_id s = some "CV"
matched Pattern.tx_code s = none

abbrev runtime : Runtime
runtime = record { exec = matched; number = λ s. some 8; decimal = λ n. "8" }

abbrev cooldown : Variant
cooldown = record {
  name = "CooldownNotElapsed";
  message = "LP withdrawal cooldown hasn't elapsed yet.";
}

only_vault : (d : Contract) → address_of contracts d ≡ "CV" → table_of d ≡ vault_errors
only_vault Contract.vault e = refl
only_vault Contract.position_manager e = absurd (ground (arith, eq_iff "CP" "CV", e))
only_vault Contract.oracle_router e = absurd (ground (arith, eq_iff "CO" "CV", e))
only_vault Contract.config_manager e = absurd (ground (arith, eq_iff "CC" "CV", e))
only_vault Contract.oracle e = absurd (ground (arith, eq_iff "" "CV", e))

to_error_message-own_example :
    to_error_message runtime contracts (Thrown.text_of "CV: Error(Contract, #8)")
    ≡ "LP withdrawal cooldown hasn't elapsed yet."
unfolding stringify_error variant_at vault_errors
to_error_message-own_example =
    to_error_message-own runtime contracts Contract.vault (Thrown.text_of "CV: Error(Contract, #8)")
      "8" 8 cooldown (λ e. ground (arith, eq_iff "CV" "", e)) only_vault
      (λ e. ground (arith, eq_iff "CV: Error(Contract, #8)" "", e)) refl refl refl refl

-- The transaction is final in the third round.
abbrev answers : ℕ → Lookup
answers zero = Lookup.pending
answers (suc zero) = Lookup.pending
answers (suc (suc n)) = Lookup.success

abbrev clock : ℕ → ℕ
clock n = 1_500 * n

abbrev shortened : String → String
shortened s = s

wait_loop-Ends_example :
    (e : Ending) × (wait_loop runtime contracts shortened clock answers rounds "ab" 0 0 ≡ some e)
    × Ends runtime contracts shortened clock answers "ab" 0 0 e
wait_loop-Ends_example =
    wait_loop-Ends runtime contracts shortened clock answers 0 (omega arith) (λ k. omega arith) "ab"

abbrev market : MarketRow
market = record {
  symbol = "BTC";
  columns = record {
    acc_borrow_index = Stringy.numeral (pos 10);
    acc_funding_index = Stringy.numeral (pos 0);
    last_index_update = Stringy.numeral (pos 100);
    long_open_interest = Stringy.numeral (pos 1_000);
    short_open_interest = Stringy.numeral (pos 500);
  };
}

abbrev vault : World.VaultStateRow
vault = record {
  liquidity = record {
    reserved_usdc = Stringy.numeral (pos 40);
    total_assets = Stringy.numeral (pos 100);
  };
  net_global_trader_pnl = Stringy.numeral (pos 0);
  is_paused = false;
}

abbrev config : World.ProtocolConfigRow
config = record {
  rates = record {
    base_borrow_rate_bps = Stringy.numeral (pos 100);
    slope1_bps = Stringy.numeral (pos 400);
    slope2_bps = Stringy.numeral (pos 6_000);
    optimal_utilization_bps = Stringy.numeral (pos 8_000);
    base_funding_rate_bps = Stringy.numeral (pos 50);
  };
  min_position_lifetime = Stringy.numeral (pos 60);
  last_unpause_time = Stringy.numeral (pos 50);
  funding_cut_bps = pos 1_000;
  adl_pnl_bps = pos 9_000;
  adl_utilization_bps = pos 8_500;
  liquidation_threshold_bps = pos 100;
}

abbrev database : Tables
database = record {
  positions = [];
  markets = market ∷ [];
  prices = (record { symbol = "BTC"; price = Stringy.numeral (pos 500) }) ∷ [];
  vault = some vault;
  protocol_config = some config;
  cursor = none;
}

use_market_tick-ticks_example :
    use_market_tick "BTC"
      (record {
        market = columns_at (market_at database.markets "BTC");
        vault = some (vault_row vault config (Stringy.numeral (pos 0)));
        config = some (config_row config (Stringy.numeral (pos 8_500)) (pos 10));
        prices = price_rows database.prices;
      })
      (pos 200)
    ≡ get (load_keeper_world database (pos 200)).ticks "BTC"
use_market_tick-ticks_example =
    use_market_tick-ticks vault config (Stringy.numeral (pos 0)) (Stringy.numeral (pos 8_500))
      (pos 10) (pos 200) database "BTC" refl refl (tt, tt) (tt, tt)
      (λ e. ground (arith, eq_iff "BTC" "", e))
