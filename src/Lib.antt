-- ===== src/Lib.antt =====
-- TradeSentry examines a trade finance case: it checks the presented documents against the letter of
-- credit, compares the shipment with those that other branches (IBUs) have registered, and runs an
-- investigation that ends either ready for the settlement workflow or held for human review.
--
-- Contracts: the document types, statuses, field sets and extractions of models/contracts.py. A
-- date is its ordinal day number.
-- Compliance: the UCP 600 engine. Compliance.Finding, Consistency, Amounts, Period and Papers have
-- the checks of rules/checks.py under their names; Completeness and CrossDocument have
-- `check_document_completeness`, `_page` and `_cross_document_checks` of rules/engine.py; Engine has
-- `evaluate_compliance`, which runs the checks and sorts their findings. Model has
-- models/compliance.py, rules/parser.py and the configuration file of the rules.
-- Dna: the records of models/dna.py. Dna.Text and Normalization have dna/normalization.py with its
-- configuration; Conflicts, Papers, Builder and Transaction have `build_transaction_dna` of
-- dna/builder.py in the order of its steps: the documents and raw values, the normal forms and the
-- fingerprint, the conflicts, the sources. A DNA enters the registry by `signal_from_dna` of CrossIbu.
-- Fraud: the records of models/fraud_tbml.py. Fraud.Price, Vessel, Entity and Sanctions have the mock
-- providers of fraud_tbml/ over their files, Runner has apps/api/tradesentry_api/fraud_tbml_runner.py:
-- a provider's call is a function of the attempt, so that it may fail and then answer.
-- Investigation.Services puts the runner's tools and the builder of the DNA in the place of the
-- services of an investigation, as `Services.build` does; a parameter says which of their calls
-- outlast the orchestrator's own timeout and end in a TimeoutError.
-- CrossIbu: cross_ibu/matcher.py in Matcher (the weighted similarity) and Match (`_match`,
-- `find_best_match`), and the in-memory registry of
-- apps/api/tradesentry_api/cross_ibu_registry.py in Registry.
-- Investigation: agents/ and apps/api/tradesentry_api/investigation_orchestrator.py. Model has the
-- state, Calls `_record_tool_call` and `_failure_update`, Nodes, Tools, Evidence and Assessment the
-- nodes, Graph the edges, the gate's interrupt and `run`; Risk and Planner have the scores and the
-- plan. A node takes the state to a state and the audit events that it records. Its operations call
-- Compliance.Engine and CrossIbu.Match.
-- Review: `submit_review` of apps/api/tradesentry_api/dashboard_api.py with the checks of auth.py and
-- the in-memory stores of review_store.py and repository.py. `submit_review` takes the stores to a
-- reply and the stores; an HTTP error is a reply.
-- Intake: apps/api/tradesentry_api/documents.py in Upload and processor.py in Extract and Process. A
-- part of `process` changes the document and may stop with an exception, which the handlers turn into
-- a failed document; every version that the store took is kept.
-- Api: the handlers of apps/api/tradesentry_api over its in-memory stores. Api has the stores, the
-- audit events and the handlers' monad: a handler takes the stores to an answer, an HTTP error being
-- one, and the stores. Documents, Compliance, Matching and Dashboard have api.py, compliance_api.py,
-- dna_api.py with cross_ibu_api.py, and the listings of dashboard_api.py; Routes has ten of
-- the requests about a case, and Access authenticate of auth.py, the limiter of rate_limit.py and the middleware of
-- main.py. They call Intake.Upload, Compliance.Engine, Dna.Transaction and CrossIbu.
-- Prototype: the second set of rules of rules/ucp600.py, with rules/completeness.py,
-- risk_scoring.py, human_review_gate.py and ui_state.py, which the dashboards' prototype uses and the
-- orchestrator does not, and its matcher, rules/cross_ibu_similarity.py, in Matching.
-- Prelude: Boolean tests, integers, exact decimals, sorting and texts as code points.
-- Tests: concrete cases.
--
-- Python's `Decimal` is an integer coefficient with a scale, without a limit on its digits. The
-- similarities of the matcher are exact fractions in place of floats, and a score is in millionths.
-- A run of the graph has fuel 11, one for each node, since no edge goes back.
--
-- Parameters stand for what is not the program's own text: Compliance.Finding.Host for `casefold`,
-- difflib's ratio, `str` and SHA-256; CrossIbu.Model.MatchHost for RapidFuzz and digests;
-- Dna.Normalization.DnaHost for the methods
-- of `str`, the quotient of decimals, difflib and SHA-256; Fraud.Common.FraudHost for those that
-- the tools use, RapidFuzz and the clock; Review.ReviewHost for SHA-256 and `lower`;
-- Api.ApiHost and Api.Access.AuthHost for digests, the scanner, signed addresses and `jwt.decode`;
-- Investigation.World.World for the services, which answer with a value or an exception, a timeout
-- being one, for the clock and for the budget of the settings.
--
-- The listing of a case's documents and the audit and investigation stores are taken to answer: an
-- exception of theirs ends a run without a response.
--
-- Not modelled: the Postgres stores, the report of a case, the endpoint that starts an investigation
-- and the lists of registrations, OCR, migrations and scripts, which are input and output; the
-- language model's planner; the prototype's normalization by regular expressions; tracing, and the
-- resumption of an interrupted run.
pub mod Prelude
pub mod Contracts
pub mod Compliance
pub mod Dna
pub mod CrossIbu
pub mod Fraud
pub mod Intake
pub mod Investigation
pub mod Review
pub mod Api
pub mod Prototype
pub mod Tests
