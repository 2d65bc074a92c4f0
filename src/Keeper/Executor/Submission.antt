-- ===== src/Keeper/Executor/Submission.antt =====
-- packages/keeper/src/executor.ts: building, sending and recording a submission. The
-- generated contract client is not modelled: what a call of it answers is an argument.
use stellars_finance_contrac.Base.{
  ℕ, ◌/◌, Bool, true, false, not, ◌||◌, Option, none, some, List, [], ◌∷◌, if◌then◌else◌,
}
use stellars_finance_contrac.Base.Int.{ℤ, pos}
use stellars_finance_contrac.Keeper.Loop.{SubmitOutcome, Action}
use Prim.Native.String.{String}
use text.Mathlib.Text.{find?}
use text.Mathlib.Text.{◌==◌ as str_eq}
use stellars_finance_contrac.Keeper.Executor.{
  OpType, ByOp, Costs, rollover_if_new_day, record_spend,
}

-- What `BigInt(x)` or `toBigInt()` gives: the number, or an exception with its message.
pub data Conversion : Type 0 where
  gives : ℤ → Conversion
  throws : String → Conversion

-- What `feeCharged()` may hold.
pub data RawFee : Type 0 where
  missing unreadable : RawFee
  bigint : ℤ → RawFee
  number_fee text_fee convertible : Conversion → RawFee

pub data CreatedAt : Type 0 where
  missing empty_text : CreatedAt
  number_time text_time : Conversion → CreatedAt

-- The fields that are read of a sent transaction.
pub record SentLike : Type 0 where
  pub response_hash : Option String
  pub send_hash : Option String
  pub ledger : Option ℕ
  pub created_at : CreatedAt
  pub fee_charged : RawFee

pub record SubmissionRecord : Type 0 where
  pub tx_hash : String
  pub ledger : ℕ
  pub unix_seconds : ℤ
  pub fee_stroops : ℤ

unfoldable pub extract_fee_charged : RawFee → Conversion
extract_fee_charged RawFee.missing = Conversion.gives (pos 0)
extract_fee_charged RawFee.unreadable = Conversion.gives (pos 0)
extract_fee_charged (RawFee.bigint z) = Conversion.gives z
extract_fee_charged (RawFee.number_fee c) = c
extract_fee_charged (RawFee.text_fee c) = c
extract_fee_charged (RawFee.convertible c) = c

abbrev pub first_hash : Option String → Option String → String
first_hash (some h) second = h
first_hash none (some h) = h
first_hash none none = ""

abbrev pub created_seconds : CreatedAt → ℕ → Conversion
created_seconds (CreatedAt.number_time c) now = c
created_seconds (CreatedAt.text_time c) now = c
created_seconds CreatedAt.missing now = Conversion.gives (pos (now / 1_000))
created_seconds CreatedAt.empty_text now = Conversion.gives (pos (now / 1_000))

-- What reading a sent transaction gives: the record, or an exception of one of its conversions.
pub data Extracted : Type 0 where
  record_of : SubmissionRecord → Extracted
  throws : String → Extracted

abbrev pub extract_with : SentLike → Conversion → Conversion → Extracted
extract_with sent (Conversion.throws reason) fee = Extracted.throws reason
extract_with sent (Conversion.gives t) (Conversion.throws reason) = Extracted.throws reason
extract_with sent (Conversion.gives t) (Conversion.gives fee) = Extracted.record_of (record {
  tx_hash = first_hash sent.response_hash sent.send_hash;
  ledger = elim sent.ledger [ none ↦ 0 | some n ↦ n ];
  unix_seconds = t;
  fee_stroops = fee;
})

unfoldable pub extract_record : SentLike → ℕ → Extracted
unfolding extract_fee_charged
extract_record sent now =
    extract_with sent (created_seconds sent.created_at now) (extract_fee_charged sent.fee_charged)

-- A row of `keeper_fees`.
pub record KeeperFee : Type 0 where
  pub op_type : OpType
  pub symbol : Option String
  pub trader : Option String
  pub submission : SubmissionRecord

pub record Executor : Type 0 where
  pub costs : Costs
  pub keeper_fees : List KeeperFee

-- `inserts` says whether the insert goes through; an error of it is caught.
unfoldable pub persist_fee :
    Bool
    → OpType
    → Option String
    → Option String
    → SubmissionRecord
    → List KeeperFee
    → List KeeperFee
persist_fee inserts op symbol trader rec rows =
    if str_eq rec.tx_hash "" || not inserts
    then rows
    else (record { op_type = op; symbol = symbol; trader = trader; submission = rec }) ∷ rows

-- `EXPECTED_REJECTION_CODES`, and the messages of the generated error map at these; `none` where
-- the module throws because one is missing or empty.
abbrev pub expected_rejection_codes : List ℕ
expected_rejection_codes = 3 ∷ 5 ∷ 6 ∷ 9 ∷ 10 ∷ 13 ∷ 17 ∷ []

abbrev pub cons_message : Option String → Option (List String) → Option (List String)
cons_message none rest = none
cons_message (some m) none = none
cons_message (some m) (some rest) = if str_eq m "" then none else some (m ∷ rest)

unfoldable pub messages_of : (ℕ → Option String) → List ℕ → Option (List String)
messages_of errors [] = some []
messages_of errors (code ∷ codes) = cons_message (errors code) (messages_of errors codes)

abbrev pub is_found : Option ℕ → Bool
is_found none = false
is_found (some n) = true

-- `EXPECTED_REJECTIONS.some((name) => reason.includes(name))`
unfoldable pub classify : List String → String → Bool
classify [] reason = false
classify (name ∷ names) reason = is_found (find? reason name) || classify names reason

-- How the two steps of a submission go, when, and whether the insert of its row goes through.
pub data Build : Type 0 where
  built : Build
  throws : String → Build

pub data Send : Type 0 where
  sent : SentLike → Send
  throws : String → Send

pub record Attempt : Type 0 where
  pub build : Build
  pub send : Send
  pub now : ℕ
  pub inserts : Bool

-- What follows a sent transaction. An exception of a conversion is caught as a failed submission.
unfoldable pub after_send :
    OpType
    → Option String
    → Option String
    → Extracted
    → ℕ
    → Bool
    → Executor
    → SubmitOutcome × Executor
unfolding record_spend persist_fee
after_send op symbol trader (Extracted.throws reason) now inserts e =
    (SubmitOutcome.rejected false reason, e)
after_send op symbol trader (Extracted.record_of rec) now inserts e = (
  SubmitOutcome.submitted,
  record {
    costs = (record_spend op rec.fee_stroops now e.costs).0;
    keeper_fees = persist_fee inserts op symbol trader rec e.keeper_fees;
  },
)

abbrev pub sign_and_send :
    OpType → Option String → Option String → Send → ℕ → Bool → Executor → SubmitOutcome × Executor
sign_and_send op symbol trader (Send.sent s) now inserts e =
    after_send op symbol trader (extract_record s now) now inserts e
sign_and_send op symbol trader (Send.throws reason) now inserts e =
    (SubmitOutcome.rejected false reason, e)

abbrev pub after_build :
    List String
    → OpType
    → Option String
    → Option String
    → Build
    → Attempt
    → Executor
    → SubmitOutcome × Executor
after_build names op symbol trader (Build.throws reason) a e =
    (SubmitOutcome.rejected (classify names reason) reason, e)
after_build names op symbol trader Build.built a e =
    sign_and_send op symbol trader a.send a.now a.inserts e

unfoldable pub submit_with_sim :
    List String
    → OpType
    → Option String
    → Option String
    → Attempt
    → Executor
    → SubmitOutcome × Executor
submit_with_sim names op symbol trader a e = after_build names op symbol trader a.build a e

-- The four methods.
unfoldable pub perform : List String → Action → Attempt → Executor → SubmitOutcome × Executor
unfolding submit_with_sim
perform names (Action.update_indices symbol) =
    submit_with_sim names OpType.update_indices (some symbol) none
perform names (Action.liquidate_position trader symbol) =
    submit_with_sim names OpType.liquidate_position (some symbol) (some trader)
perform names (Action.execute_order trader symbol) =
    submit_with_sim names OpType.execute_order (some symbol) (some trader)
perform names (Action.deleverage_position trader symbol) =
    submit_with_sim names OpType.deleverage_position (some symbol) (some trader)

unfoldable pub cost_summary : ℕ → Executor → (ℤ × ByOp) × Executor
unfolding rollover_if_new_day
cost_summary now e =
    let costs = rollover_if_new_day now e.costs in
    ((costs.total_spent_stroops, costs.by_op_spent_stroops), record e { costs = costs })
