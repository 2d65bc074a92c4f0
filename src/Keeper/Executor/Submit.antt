-- ===== src/Keeper/Executor/Submit.antt =====
-- What an attempt at an action leaves: in the tracker and in the rows of `keeper_fees`.
use stellars_finance_contrac.Base.{
  false, Option, some, none, List, ◌∷◌, if◌then◌else◌, ◌≡◌, refl, not, ◌||◌,
}
use stellars_finance_contrac.Keeper.Loop.{SubmitOutcome, Action}
use stellars_finance_contrac.Keeper.Executor.{OpType, record_spend}
use stellars_finance_contrac.Keeper.Executor.Submission.{
  SubmissionRecord, SentLike, Extracted, extract_record, Executor, KeeperFee, Build, Send, Attempt,
  after_send, sign_and_send, after_build, submit_with_sim, classify, perform, persist_fee,
}
use stellars_finance_contrac.Keeper.Executor.Spending.{IsBalanced, record_spend-IsBalanced}
use Prim.Native.String.{String}
use text.Mathlib.Text.{◌==◌ as str_eq}

abbrev pub op_of : Action → OpType
op_of (Action.update_indices symbol) = OpType.update_indices
op_of (Action.liquidate_position trader symbol) = OpType.liquidate_position
op_of (Action.execute_order trader symbol) = OpType.execute_order
op_of (Action.deleverage_position trader symbol) = OpType.deleverage_position

abbrev pub symbol_of : Action → String
symbol_of (Action.update_indices symbol) = symbol
symbol_of (Action.liquidate_position trader symbol) = symbol
symbol_of (Action.execute_order trader symbol) = symbol
symbol_of (Action.deleverage_position trader symbol) = symbol

abbrev pub trader_of : Action → Option String
trader_of (Action.update_indices symbol) = none
trader_of (Action.liquidate_position trader symbol) = some trader
trader_of (Action.execute_order trader symbol) = some trader
trader_of (Action.deleverage_position trader symbol) = some trader

-- The row that a settled submission writes for an action.
abbrev pub row_of : Action → SubmissionRecord → KeeperFee
row_of action rec = record {
  op_type = op_of action;
  symbol = some (symbol_of action);
  trader = trader_of action;
  submission = rec;
}

-- The attempt reached the chain, and its answer could be read.
pub record Settled (a : Attempt) (rec : SubmissionRecord) : Type 0 where
  pub answer : SentLike
  pub builds : a.build ≡ Build.built
  pub sends : a.send ≡ Send.sent answer
  pub reads : extract_record answer a.now ≡ Extracted.record_of rec

-- The transaction is built, and then the call that signs and sends it throws, or a conversion of its
-- answer does.
pub data FailsAfterBuild (a : Attempt) (reason : String) : Type 0 where
  unsent : a.build ≡ Build.built → a.send ≡ Send.throws reason → FailsAfterBuild a reason
  unread :
      (answer : SentLike)
      → a.build ≡ Build.built
      → a.send ≡ Send.sent answer
      → extract_record answer a.now ≡ Extracted.throws reason
      → FailsAfterBuild a reason

-- What an attempt may come to for an action: the simulation refuses it, and the outcome says
-- whether that was expected; the submission fails, unexpectedly; or it settles, its fee counted
-- for the action's operation and its row written, if it has a hash and the insert goes through.
pub data Accounted (names : List String) (action : Action) (a : Attempt) (e : Executor)
    : SubmitOutcome × Executor → Type 0 where
  refused :
      (reason : String)
      → a.build ≡ Build.throws reason
      → Accounted names action a e (SubmitOutcome.rejected (classify names reason) reason, e)
  failed :
      (reason : String)
      → FailsAfterBuild a reason
      → Accounted names action a e (SubmitOutcome.rejected false reason, e)
  settled :
      (rec : SubmissionRecord)
      → Settled a rec
      → Accounted names action a e (
        SubmitOutcome.submitted,
        record {
          costs = (record_spend (op_of action) rec.fee_stroops a.now e.costs).0;
          keeper_fees =
              if str_eq rec.tx_hash "" || not a.inserts
              then e.keeper_fees
              else row_of action rec ∷ e.keeper_fees;
        },
      )

module _ (names : List String) (action : Action) (a : Attempt) (e : Executor) where
  after_send-Accounted :
      a.build ≡ Build.built
      → (answer : SentLike) → a.send ≡ Send.sent answer
      → (x : Extracted) → extract_record answer a.now ≡ x
      → Accounted names action a e (
          after_send
            (op_of action)
            (some (symbol_of action))
            (trader_of action)
            x
            a.now
            a.inserts
            e)
  unfolding after_send persist_fee
  after_send-Accounted builds answer sends (Extracted.throws reason) reads =
      failed reason (unread answer builds sends reads)
  after_send-Accounted builds answer sends (Extracted.record_of rec) reads =
      settled rec (record { answer = answer; builds = builds; sends = sends; reads = reads })

  sign_and_send-Accounted :
      a.build ≡ Build.built
      → (s : Send) → a.send ≡ s
      → Accounted names action a e (
          sign_and_send
            (op_of action)
            (some (symbol_of action))
            (trader_of action)
            s
            a.now
            a.inserts
            e)
  sign_and_send-Accounted builds (Send.throws reason) sends = failed reason (unsent builds sends)
  sign_and_send-Accounted builds (Send.sent answer) sends =
      after_send-Accounted builds answer sends (extract_record answer a.now) refl

  after_build-Accounted :
      (b : Build)
      → a.build ≡ b
      → Accounted names action a e
          (after_build names (op_of action) (some (symbol_of action)) (trader_of action) b a e)
  after_build-Accounted (Build.throws reason) builds = refused reason builds
  after_build-Accounted Build.built builds = sign_and_send-Accounted builds a.send refl

-- Each of the four methods ends in one of three ways. The simulation refuses: nothing changes,
-- and the outcome is expected just if the message has one of the expected names. The transaction is
-- built, but sending it or reading the answer throws: nothing changes, and the outcome is unexpected.
-- It is sent and its answer read: the fee is counted once for the method's own operation, and one
-- row with the operation, the symbol and the trader is written, unless there is no hash or the
-- insert fails.
pub perform-Accounted :
    (names : List String) (action : Action) (a : Attempt) (e : Executor)
    → Accounted names action a e (perform names action a e)
unfolding perform submit_with_sim
perform-Accounted names (Action.update_indices symbol) a e =
    after_build-Accounted names (Action.update_indices symbol) a e a.build refl
perform-Accounted names (Action.liquidate_position trader symbol) a e =
    after_build-Accounted names (Action.liquidate_position trader symbol) a e a.build refl
perform-Accounted names (Action.execute_order trader symbol) a e =
    after_build-Accounted names (Action.execute_order trader symbol) a e a.build refl
perform-Accounted names (Action.deleverage_position trader symbol) a e =
    after_build-Accounted names (Action.deleverage_position trader symbol) a e a.build refl

Accounted-IsBalanced :
    (names : List String) (action : Action) (a : Attempt) (e : Executor)
    → IsBalanced e.costs
    → (result : SubmitOutcome × Executor) → Accounted names action a e result
    → IsBalanced result.1.costs
Accounted-IsBalanced names action a e h _ (refused reason builds) = h
Accounted-IsBalanced names action a e h _ (failed reason builds) = h
Accounted-IsBalanced names action a e h _ (settled rec s) =
    record_spend-IsBalanced (op_of action) rec.fee_stroops a.now e.costs h

-- Any attempt at any action keeps the cost tracker's total equal to the sum over the operations.
pub perform-IsBalanced :
    (names : List String) (action : Action) (a : Attempt) (e : Executor)
    → IsBalanced e.costs
    → IsBalanced (perform names action a e).1.costs
perform-IsBalanced names action a e h =
    Accounted-IsBalanced names action a e h (perform names action a e)
      (perform-Accounted names action a e)
