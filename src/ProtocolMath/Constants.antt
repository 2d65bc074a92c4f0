-- ===== src/ProtocolMath/Constants.antt =====
-- packages/protocol-math/src/constants.ts, and the day of quote.ts.
use stellars_finance_contrac.Base.Int.{ℤ, pos}

abbrev pub precision : ℤ
precision = pos 10_000_000

abbrev pub index_precision : ℤ
index_precision = pos 100_000_000_000_000

abbrev pub bps : ℤ
bps = pos 10_000

abbrev pub seconds_per_year : ℤ
seconds_per_year = pos 31_536_000

abbrev pub max_leverage_cap : ℤ
max_leverage_cap = pos 200

abbrev pub seconds_per_day : ℤ
seconds_per_day = pos 86_400
