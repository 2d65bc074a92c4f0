-- ===== src/Frontend/Sender.antt =====
-- packages/frontend/src/contracts/sender.ts: the submission of a contract call that the wallet signs,
-- and the wait for its result. The wallet, the node and the clock are parameters.
pub mod Waiting
use stellars_finance_contrac.Base.{ℕ, zero, suc, ◌-◌, Option, none, some, List, if◌then◌else◌, ltb}
use stellars_finance_contrac.Frontend.Errors.{
  Contracts, ParsedContractError, Runtime, Thrown, parse_contract_error, tx_result_code_to_message,
  extract_contract_error,
}
use Prim.Native.String.{String, ◌++◌}
use text.Mathlib.Text

-- packages/frontend/src/lib/contract-errors.ts: `SubmitErrorDetails`.
pub data Kind : Type 0 where
  tx_level host_function contract timeout : Kind

pub record SubmitErrorDetails : Type 0 where
  pub message : String
  pub kind : Kind
  pub contract : Option String
  pub code : Option String

-- How the function ends: it returns the hash, throws a `SubmitError`, or throws what a callee threw.
pub data Ending : Type 0 where
  succeeded : (hash : String) → Ending
  rejected : SubmitErrorDetails → Ending
  threw : (message : String) → Ending

-- What `getTransaction` answers: a transaction that is not final, a success, a failure with its
-- diagnostic events and the code of the host function, or a throw.
pub data Lookup : Type 0 where
  pending success : Lookup
  failed : List (Option ℕ × Option String) → (op_code : Option String) → Lookup
  unanswered : (message : String) → Lookup

-- What `sendTransaction` answers. The name of an error's result is `none` where its decoding throws.
pub data SendReply : Type 0 where
  accepted : (hash : String) → SendReply
  refused : (status : String) → (error_result : Option (Option String)) → SendReply
  not_sent : (message : String) → SendReply

-- What the wallet answers: the signed XDR, or a throw.
pub data SignReply : Type 0 where
  signed : (xdr : String) → SignReply
  declined : (message : String) → SignReply

-- The transaction of a binding: the error of its simulation, and the XDR if it was built.
pub record Assembled : Type 0 where
  pub sim_error : Option String
  pub built : Option String

abbrev pub or_text : Option String → String → String
or_text none other = other
or_text (some s) other = s

unfoldable pub generic_send_error : String → SubmitErrorDetails
generic_send_error status = record {
  message = "Submission failed (" ++ status ++ ").";
  kind = Kind.tx_level;
  contract = none;
  code = some status;
}

-- Fuel for as many rounds of 1.5 seconds as 30 seconds hold, and for the last test.
abbrev pub rounds : ℕ
rounds = 21

-- `slice(0, 240)` of the text is a parameter, since it counts UTF-16 units.
module _ (runtime : Runtime) (contracts : Contracts) (first_240 : String → String) where
  unfoldable pub parse_send_error : String → Option (Option String) → SubmitErrorDetails
  parse_send_error status none = generic_send_error status
  parse_send_error status (some none) = generic_send_error status
  parse_send_error status (some (some name)) = record {
    message =
        or_text (tx_result_code_to_message runtime contracts (some name))
          ("Transaction rejected (" ++ name ++ ").");
    kind = Kind.tx_level;
    contract = none;
    code = some name;
  }

  abbrev pub of_contract : ParsedContractError → SubmitErrorDetails
  of_contract e = record {
    message = e.message;
    kind = Kind.contract;
    contract = e.contract;
    code = some (or_text e.name ("#" ++ runtime.decimal e.code));
  }

  abbrev pub failed_on_chain : String → Option String → SubmitErrorDetails
  failed_on_chain hash none = record {
    message = "Transaction failed on-chain: " ++ hash;
    kind = Kind.tx_level;
    contract = none;
    code = none;
  }
  failed_on_chain hash (some op_code) = record {
    message = "Contract execution failed (" ++ op_code ++ ").";
    kind = Kind.host_function;
    contract = none;
    code = some op_code;
  }

  unfoldable pub parse_get_error :
      String → List (Option ℕ × Option String) → Option String → SubmitErrorDetails
  parse_get_error hash events op_code = elim (extract_contract_error runtime contracts events) [
    | some e ↦ of_contract e
    | none ↦ failed_on_chain hash op_code
  ]

  unfoldable pub parse_sim_error : String → SubmitErrorDetails
  parse_sim_error s = elim (parse_contract_error runtime contracts (Thrown.text_of s)) [
    | some e ↦ of_contract e
    | none ↦ record {
      message = "Simulation failed: " ++ first_240 s;
      kind = Kind.host_function;
      contract = none;
      code = none;
    }
  ]

  abbrev pub timed_out : String → Ending
  timed_out hash = Ending.rejected (record {
    message = "Transaction still pending after 30s: " ++ hash;
    kind = Kind.timeout;
    contract = none;
    code = none;
  })

  -- The end of one round, given that of the rounds after it.
  abbrev pub after_lookup : String → Lookup → Option Ending → Option Ending
  after_lookup hash Lookup.pending rest = rest
  after_lookup hash Lookup.success rest = some (Ending.succeeded hash)
  after_lookup hash (Lookup.failed events op_code) rest =
      some (Ending.rejected (parse_get_error hash events op_code))
  after_lookup hash (Lookup.unanswered message) rest = some (Ending.threw message)

  module _ (now : ℕ → ℕ) (get_transaction : ℕ → Lookup) where
    -- The `while` on fuel: `now k` is the clock at the test of round `k`.
    unfoldable pub wait_loop : ℕ → String → ℕ → ℕ → Option Ending
    wait_loop zero hash start k = none
    wait_loop (suc fuel) hash start k =
        let rest = wait_loop fuel hash start (suc k) in
        if ltb (now k - start) 30_000
        then after_lookup hash (get_transaction k) rest
        else some (timed_out hash)

    abbrev pub after_send : ℕ → SendReply → Option Ending
    after_send start (SendReply.accepted hash) = wait_loop rounds hash start 0
    after_send start (SendReply.refused status error_result) =
        some (Ending.rejected (parse_send_error status error_result))
    after_send start (SendReply.not_sent message) = some (Ending.threw message)

    abbrev pub after_sign : (String → SendReply) → ℕ → SignReply → Option Ending
    after_sign send start (SignReply.declined message) = some (Ending.threw message)
    after_sign send start (SignReply.signed xdr) = after_send start (send xdr)

    abbrev pub after_build :
        (String → SignReply) → (String → SendReply) → ℕ → Option String → Option Ending
    after_build sign send start none = some (Ending.threw "transaction has not been simulated")
    after_build sign send start (some xdr) = after_sign send start (sign xdr)

    -- `tx.simulation.error`, which counts if it is not the empty text.
    unfoldable pub sign_and_send_with_wallet :
        (String → SignReply) → (String → SendReply) → ℕ → Assembled → Option Ending
    sign_and_send_with_wallet sign send start tx = elim tx.sim_error [
      | none ↦ after_build sign send start tx.built
      | some s ↦
          if Text.◌==◌ s ""
          then after_build sign send start tx.built
          else some (Ending.rejected (parse_sim_error s))
    ]
