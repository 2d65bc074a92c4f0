-- ===== src/Indexer/Positions/Aggregates.antt =====
-- packages/indexer/src/handlers/position-manager.ts: the open interest of each market.
use stellars_finance_contrac.Base.{
  ℕ, Bool, true, false, some, List, [], ◌∷◌, if◌then◌else◌, ◌≡◌, refl, sym, ap, ◌∙◌, subst, arith,
  inl, inr, Bool-cases,
}
use stellars_finance_contrac.Base.Int.{ℤ}
use stellars_finance_contrac.Base.Dict.{Dict, get, get-set}
use stellars_finance_contrac.Indexer.Positions.{Position, Market, PositionDb, Trade}
use stellars_finance_contrac.Indexer.Positions.Handlers.{refresh_market_aggregates}
use stellars_finance_contrac.Indexer.Positions.Rows.{
  update_at, delete_at, sum_where, open_interest, market_or_default, write_market, average_price,
}
use stellars_finance_contrac.Indexer.Positions.Table.{KeepsKey}
use Prim.Native.String.{String}
use text.Mathlib.Text.{◌==◌}
use text.Mathlib.TextEquality.{eq_iff}

-- Changing or deleting rows of one symbol leaves the sums of another.
pub open_interest-update_at :
    (a b : String) (f : Position → Position)
    → KeepsKey f
    → (side : Bool) (symbol : String) (ps : List Position) → (b == symbol) ≡ false
    → open_interest side symbol (update_at a b f ps) ≡ open_interest side symbol ps
unfolding open_interest sum_where update_at
open_interest-update_at a b f keeps side symbol [] e = refl
open_interest-update_at a b f keeps side symbol (p ∷ ps) e = ground (
  arith,
  keeps.symbol p,
  eq_iff b symbol,
  eq_iff p.symbol b,
  eq_iff p.symbol symbol,
  open_interest-update_at a b f keeps side symbol ps e,
)

pub open_interest-delete_at :
    (a b : String) (side : Bool) (symbol : String) (ps : List Position)
    → (b == symbol) ≡ false
    → open_interest side symbol (delete_at a b ps) ≡ open_interest side symbol ps
unfolding open_interest sum_where delete_at
open_interest-delete_at a b side symbol [] e = refl
open_interest-delete_at a b side symbol (p ∷ ps) e = ground (
  arith,
  eq_iff b symbol,
  eq_iff p.symbol b,
  eq_iff p.symbol symbol,
  open_interest-delete_at a b side symbol ps e,
)

-- The change leaves a row's key, size and side as they are.
pub record KeepsSize (f : Position → Position) : Type 0 where
  pub symbol : (p : Position) → (f p).symbol ≡ p.symbol
  pub size : (p : Position) → (f p).size ≡ p.size
  pub is_long : (p : Position) → (f p).is_long ≡ p.is_long

pub open_interest-KeepsSize :
    (a b : String) (f : Position → Position)
    → KeepsSize f
    → (side : Bool) (symbol : String) (ps : List Position)
    → open_interest side symbol (update_at a b f ps) ≡ open_interest side symbol ps
unfolding open_interest sum_where update_at
open_interest-KeepsSize a b f keeps side symbol [] = refl
open_interest-KeepsSize a b f keeps side symbol (p ∷ ps) = ground (
  arith,
  keeps.symbol p,
  keeps.size p,
  keeps.is_long p,
  open_interest-KeepsSize a b f keeps side symbol ps,
)

-- The market's open interest, or 0 where there is no market, is what its positions add up to.
pub record IsAggregated (ps : List Position) (markets : Dict Market) (symbol : String)
    : Type 0 where
  pub long :
      (market_or_default (get markets symbol)).long_open_interest ≡ open_interest true symbol ps
  pub short :
      (market_or_default (get markets symbol)).short_open_interest ≡ open_interest false symbol ps

if_refl : {V : Type 0} (key : String) (x y : V) → (if key == key then x else y) ≡ x
if_refl key x y = ground (arith, eq_iff key key)

market-here :
    (symbol : String) (ledger : ℕ) (f : Market → Market) (markets : Dict Market)
    → market_or_default (get (write_market symbol ledger f markets) symbol)
      ≡ f (record (market_or_default (get markets symbol)) { updated_at_ledger = ledger })
unfolding write_market
market-here symbol ledger f markets =
    let written =
      f (record (market_or_default (get markets symbol)) { updated_at_ledger = ledger }) in
    ap market_or_default
      (get-set markets symbol symbol written ∙ if_refl symbol (some written) (get markets symbol))

market-elsewhere :
    (a symbol : String) (ledger : ℕ) (f : Market → Market) (markets : Dict Market)
    → (a == symbol) ≡ false
    → get (write_market a ledger f markets) symbol ≡ get markets symbol
unfolding write_market
market-elsewhere a symbol ledger f markets e = ground (
  arith,
  get-set markets a symbol
      (f (record (market_or_default (get markets a)) { updated_at_ledger = ledger })),
)

-- The change leaves a market's open interest as it is.
pub record KeepsInterest (f : Market → Market) : Type 0 where
  pub long : (m : Market) → (f m).long_open_interest ≡ m.long_open_interest
  pub short : (m : Market) → (f m).short_open_interest ≡ m.short_open_interest

pub write_market-IsAggregated :
    (a symbol : String) (ledger : ℕ) (f : Market → Market)
    → KeepsInterest f
    → (ps : List Position) (markets : Dict Market) → IsAggregated ps markets symbol
    → IsAggregated ps (write_market a ledger f markets) symbol
write_market-IsAggregated a symbol ledger f keeps ps markets h = elim (Bool-cases (a == symbol)) [
  | inl e ↦
      subst (λ x. IsAggregated ps (write_market x ledger f markets) symbol)
        (sym ((eq_iff a symbol).0 e))
        (record {
          long =
              ap (λ m. m.long_open_interest) (market-here symbol ledger f markets)
              ∙ keeps.long _
              ∙ h.long;
          short =
              ap (λ m. m.short_open_interest) (market-here symbol ledger f markets)
              ∙ keeps.short _
              ∙ h.short;
        })
  | inr e ↦
      let there = ap market_or_default (market-elsewhere a symbol ledger f markets e) in
      record {
        long = ap (λ m. m.long_open_interest) there ∙ h.long;
        short = ap (λ m. m.short_open_interest) there ∙ h.short;
      }
]

refreshed : (ℤ → ℤ → ℤ) → String → List Position → Market → Market
refreshed quotient symbol ps m = record m {
  long_open_interest = open_interest true symbol ps;
  short_open_interest = open_interest false symbol ps;
  global_long_avg_price = average_price quotient true symbol ps;
  global_short_avg_price = average_price quotient false symbol ps;
}

refreshed-IsAggregated :
    (quotient : ℤ → ℤ → ℤ) (a symbol : String) (ledger : ℕ) (markets : Dict Market)
    (before ps : List Position)
    → ((side : Bool)
        → (a == symbol) ≡ false
        → open_interest side symbol ps ≡ open_interest side symbol before)
    → IsAggregated before markets symbol
    → IsAggregated ps (write_market a ledger (refreshed quotient a ps) markets) symbol
unfolding refreshed
refreshed-IsAggregated quotient a symbol ledger markets before ps others h =
    elim (Bool-cases (a == symbol)) [
      | inl e ↦
          subst
            (λ x. IsAggregated ps (write_market x ledger (refreshed quotient x ps) markets) symbol)
            (sym ((eq_iff a symbol).0 e))
            (record {
              long =
                  ap (λ m. m.long_open_interest)
                    (market-here symbol ledger (refreshed quotient symbol ps) markets);
              short =
                  ap (λ m. m.short_open_interest)
                    (market-here symbol ledger (refreshed quotient symbol ps) markets);
            })
      | inr e ↦
          let there =
            ap market_or_default
              (market-elsewhere a symbol ledger (refreshed quotient a ps) markets e) in
          record {
            long = ap (λ m. m.long_open_interest) there ∙ h.long ∙ sym (others true e);
            short = ap (λ m. m.short_open_interest) there ∙ h.short ∙ sym (others false e);
          }
    ]

-- Refreshing a symbol makes its market right, whatever happened to its positions, and leaves the
-- others right if their sums did not change.
pub refresh-IsAggregated :
    (quotient : ℤ → ℤ → ℤ) (a symbol : String) (ledger : ℕ) (db : PositionDb) (ps : List Position)
    (trade : Trade)
    → ((side : Bool)
        → (a == symbol) ≡ false
        → open_interest side symbol ps ≡ open_interest side symbol db.positions)
    → IsAggregated db.positions db.markets symbol
    → IsAggregated ps
        (refresh_market_aggregates quotient a ledger
          (record db { positions = ps; trades = trade ∷ db.trades })).markets
        symbol
unfolding refresh_market_aggregates refreshed
refresh-IsAggregated quotient a symbol ledger db ps trade others h =
    refreshed-IsAggregated quotient a symbol ledger db.markets db.positions ps others h
