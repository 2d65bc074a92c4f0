-- ===== src/Lib.antt =====
-- Verification of the off-chain services of the protocol (packages/): the TypeScript that mirrors,
-- watches and drives the position manager and vault contracts. The indexer copies the contracts'
-- events into a database; the keeper reads the database, projects each market to the present with
-- protocol-math, and submits liquidations, index updates, orders and deleveragings.
--
-- protocol-math mirrors the contract's integer arithmetic. ProtocolMath/Pure.antt has the functions
-- of packages/protocol-math/src/pure.ts, ProtocolMath/Tick.antt the class of tick.ts, Quote.antt,
-- Eval.antt, Coerce.antt and Types.antt the files of the same name. `bigint` is the type `ℤ` of
-- Base/Int.antt, whose division (Base/Quot.antt) rounds towards zero. A numeric column is null,
-- undefined, empty or the text of an integer: what `BigInt` throws on any other text is not modelled.
-- A division by zero, which throws in JavaScript, stands behind the tests of the source.
--
-- The keeper is packages/keeper/src. Keeper/Dedup.antt has the table of claimed slots of dedup.ts,
-- Keeper/World.antt the snapshot that scanner.ts loads, from the rows that its queries return, and
-- Keeper/Scanner.antt the two choices it makes from it. Keeper/Loop.antt has one iteration of the hot
-- and of the cold loop of loop.ts as functions of a state: the slots, a log of the submissions, and
-- the number of the turn. `env` is a stream with what the clock, the stop signal and the chain reply
-- in each turn, so that a theorem for every stream is one for every behaviour of them. The sleeps
-- between iterations, the log lines and the soft staleness warning are not modelled; no lag is an
-- infinite one, and a load that fails is no world. Keeper/Executor.antt and its child Submission have
-- executor.ts: what an attempt at an action does to the cost tracker and the rows of `keeper_fees`.
-- `Date.now()` is read once in an attempt.
--
-- The indexer is packages/indexer/src. A parsed event is a topic with its data (Indexer/Event.antt).
-- Indexer/Vault.antt, Indexer/Positions.antt and Indexer/Config.antt have the tables that
-- handlers/vault.ts, position-manager.ts and config-manager.ts write, and with Vault/Handlers.antt,
-- Positions/Rows.antt and Positions/Handlers.antt every handler. A table of one row is an option, one
-- with a text key a dictionary (Base/Dict.antt), any other a list, the latest insert first, in an
-- order that no query relies on. A handler that throws before it writes is `none`. Columns that the
-- database fills (`id`, `created_at`, `updated_at`) are left out, and the truncated quotient of two
-- `numeric` values, which the database computes, is a parameter. Indexer/Vault/Contract.antt states
-- what the indexer is to mirror: the calls of contracts/vault with the events that each publishes.
--
-- What reaches a handler comes from three loops of packages/indexer/src. Indexer/Rpc.antt has rpc.ts:
-- the cursors, the pages that the node returns, and the retries of a read. Indexer/Pages.antt has the
-- page loop of index.ts over the database, each event's writes with its cursor in one transaction;
-- Indexer/Router.antt the choice of a parser for a contract, and Indexer/Routes.antt what the chosen
-- handler writes. Indexer/Spec.antt has spec-parser.ts, which reads a contract's specification and
-- decodes an event by it. Indexer/Poller.antt has oracle-poller.ts and the upsert of a price.
--
-- Keeper/Serializer.antt has serializer.ts, the chain of promises through which the keeper signs, as
-- a step relation on the chain's turns.
--
-- Oracle/Loop.antt has the publishing loop of packages/oracle-base/src/loop.ts: the last push of each
-- ticker, the tests of a tick, and the submissions, over a list of ticks with what each meets.
--
-- Api/Stream.antt has the queue behind every stream of packages/api/src/sse-stream.ts, with what each
-- waiting consumer is given, and the filter that notifications of the database pass (sse.ts).
-- Api/Broadcaster.antt has broadcaster.ts: its subscriptions, the channels that its client listens to,
-- the reconnects that are due, and a log of what it delivers.
--
-- packages/frontend/src is modelled where it computes: the windows of the desktop
-- (Frontend/Windows.antt), their sizes and places (Frontend/Geometry.antt), the texts for a contract's
-- error (Frontend/Errors.antt), the sending of a transaction (Frontend/Sender.antt), and the market's
-- tick and a position's evaluation, which protocol-math computes too (Frontend/Tick.antt).
--
-- Bounds and fuel. Loops over data are over lists. The retries of `fetchEvents` have the fuel
-- `maxAttempts`, which is the bound of the source. The wait for a transaction has 21 rounds, as
-- many as 30 s hold at one poll each 1.5 s and one for the last test of the clock. Loops that run until
-- a signal stops them are modelled for each finite list of turns.
--
-- Not modelled: the React components, the wallet, the printed numbers and the patches of the query
-- cache (packages/frontend), the REST routes (packages/api), the exchanges' price sources, the
-- simulation and the clients of packages/protocol-clients, the health server and the settings of the
-- services, the casts that give a parsed event its type (a handler's
-- data has the fields that the contract publishes; what `toNumericString` throws on a missing one is
-- modelled for the two entry indices of an increase only), generated bindings, scripts, and the
-- contracts themselves. A property that JavaScript's `in` finds on the prototype is left out.
pub mod Base
pub mod ProtocolMath
pub mod Keeper
pub mod Indexer
pub mod Oracle
pub mod Api
pub mod Frontend
