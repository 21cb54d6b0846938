-- ===== src/Lib.antt =====
-- Contracts, commercial proposals and their signature: the decisions of the application.
--
-- The program keeps contracts from their drafting to their end. A contract is a row of a database; a
-- state machine without side effects (packages/domain/src/contract/state-machine.ts) says which event
-- may come next and what it changes, and the services of apps/api/src/contracts read a snapshot of the
-- row, ask the machine, and write its answer back with the approvals, the versions and the events that
-- other programs receive. The dates of its notice, its termination and its renewal, and its deadlines
-- follow from its terms. Proposals have a machine of their own and automatic reminders. The signers
-- of a document are put in order by packages/domain/src/signature before the provider invites them.
-- Prices come from packages/pricing: versions of a schedule, tiers, indexes, manual prices and formulas,
-- which a language of its own describes; the lines of a price grid and the proposals have codes that
-- are written and read back.
--
-- The parts, and the files that model them:
--
--   Base                 tests on numbers and options, lists, texts, digits, dates, results;
--                          the calendar that `Date` keeps in UTC
--   Contract.EventType,  packages/domain/src/contract/contract.types.ts: the kinds of events, the
--   Contract.Types         statuses, the snapshot and the events with what they carry
--   Contract.Machine     packages/domain/src/contract/state-machine.ts: TRANSITIONS, allowedEvents,
--                          assertCanAmend, assertCanRenew, isNoticeRespected
--   Contract.Events      the same file: applyEvent, a function `on_...` for each case of its switch;
--                          its child modules hold the properties
--   Contract.Dates       packages/domain/src/contract/dates.ts, over the calendar of Base.Calendar
--   Contract.Deadlines   packages/domain/src/contract/deadlines.ts
--   Contract.Rows        apps/api/src/contracts/snapshot.ts: toContractSnapshot, transitionContext;
--                          apps/api/src/webhooks-out/contract-producers.ts: contractEventFor
--   Contract.Store       the rows of one contract; persistTransition, publishContractTransition
--   Contract.Service     apps/api/src/contracts/contracts.service.ts: applyEvent, archive, unarchive;
--                          content.service.ts: saveContent
--   Proposal.Types,      packages/domain/src/proposal/proposal.types.ts and state-machine.ts:
--   Proposal.Machine,      the same for a proposal, applyProposalEvent and
--   Proposal.Events        allowedProposalEvents
--   Proposal.FollowUps   packages/domain/src/proposal/follow-ups.ts: planFollowUps, decideFollowUp
--   Reminders            packages/domain/src/reminder/planning.ts
--   Signature.Order      packages/domain/src/signature/signing-order.ts
--   ClauseDiff           packages/domain/src/templates/clause-diff.ts: norm, diffClauses
--   GridCode             packages/domain/src/price-grid/price-grid.ts: isValidContractKindPrefix,
--                          commitmentSuffix, formatGridItemCode, formatGridVariantCode, parseGridCode,
--                          switchVariantCode; packages/domain/src/proposal/numbering.ts
--   PriceGrid            packages/domain/src/price-grid/price-grid.ts: priceInEffect
--   Pricing.Dates,       packages/pricing/src/money.ts: parseIsoDate, parseDecimal; errors.ts;
--   Pricing.Schedule       schedule.ts: selectSchedule
--   Pricing.Overrides    packages/pricing/src/overrides.ts: selectOverride
--   Pricing.Tiers        packages/pricing/src/tiers.ts: parseTierTable, computeTiered
--   Pricing.Indexes      packages/pricing/src/indexes.ts: lookupIndexValue
--   Pricing.Types        packages/pricing/src/types.ts
--   Pricing.Money        packages/pricing/src/money.ts: amounts and their rounding
--   Pricing.Rules        packages/pricing/src/rules.ts; Pricing.Revision: revision.ts
--   Pricing.Trace        packages/pricing/src/trace.ts
--   Pricing.Line,        packages/pricing/src/price-at.ts: priceRegularLine, its quantity and its formula
--   Pricing.Discount,      in Line, its stages in Line.Price; priceDiscountLine; computeTotals; priceAt,
--   Pricing.Totals,        with resolveSettings of schedule.ts
--   Pricing.Engine
--   Formula.Outcome      packages/pricing/src/errors.ts: FormulaError, and what a run gives
--   Formula.Tokenizer    packages/pricing/src/formula/tokenizer.ts; its alphabet in Lexemes
--   Formula.Ast,         packages/pricing/src/formula/parser.ts: the trees, the class Parser; its EBNF
--   Formula.Parser         is the data type of Formula.Parser.Grammar
--   Formula.Names        the same file: collect, parseFormula
--   Formula.Evaluator    packages/pricing/src/formula/evaluator.ts
--   Formula.Validate     packages/pricing/src/formula/validate.ts
--   Tests                the theorems at concrete inputs, and runs of the definitions
--
-- How the code is read. A function keeps its name in snake case, a case of a switch `X_Y` is the
-- function `on_x_y`, a field or a constructor keeps its word. An exception is the value `err`, and a
-- `do` block is the sequence of guards in the order of the code; the French text of an exception is
-- left out, its code and its data are kept. An identifier is compared and tested for emptiness only:
-- it is a number, with 0 for the empty text. A field that may be `null` or absent is an `Option`.
--
-- A `Date` is the number of milliseconds since the earliest instant that a `Date` holds, which is
-- midnight UTC, so that a day is `t / 86400000`, and no instant is negative; adding days stays below
-- the last instant of a `Date` in the uses that the code makes of it, and a subtraction that would
-- leave the range stops at the first instant. Years, months and dates are those of Base.Calendar, also
-- the years 0 to 99, which `Date.UTC` reads as 1900 to 1999. Numbers are unbounded: counters and day
-- counts of the code stay far below 2^53.
--
-- The database is the record `ContractStore`: the rows of one contract that the session may see. Row
-- level security, other contracts and the columns of the tenant and the customer stay outside. A
-- transaction that throws returns `err` and no store. The identifiers of new rows are arguments. The
-- webhook deliveries of a published event, one for each subscription, and the journal that a trigger
-- writes from the context of a transition are not modelled, nor are the cleaning of HTML and the count
-- of variables in a text, which are arguments of `save_content`. The arithmetic of decimal.js is the
-- record `Arithmetic` or, where more of it is called, `Decimals`, and what it prints `Printing`:
-- arguments. The loop of the tokenizer runs on a unit of fuel for each character and one more, the
-- recursive descent on eight units for each token and six more. That is enough, since each turn takes
-- a character off, and a token is taken off before a form begins again, with seven calls at most between
-- two forms. All other definitions are by recursion on a list or a tree, or without a loop.
--
-- Not modelled: termination, renewal and amendment in the services, the price of a proposal and the
-- simulation of prices, the variables of templates, imports, the daily jobs, incoming webhooks, and all
-- input and output.
pub mod Base
pub mod ClauseDiff
pub mod Contract
pub mod Formula
pub mod GridCode
pub mod PriceGrid
pub mod Pricing
pub mod Proposal
pub mod Reminders
pub mod Signature
pub mod Tests
