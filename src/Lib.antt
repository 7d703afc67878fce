-- ===== src/Lib.antt =====
-- The Superset hardening loop: a controller that ingests scans of a fork of Superset, classifies the
-- findings and groups them into work items, dispatches a Devin session for each, follows its pull
-- request through CI, review and merge, and closes findings by later scans. This library models its
-- pure rules and the state changes of its rows; paths below are those of the repository.
--
-- Prelude      Python's idioms: truth tests, `any`, `all`, comprehensions, dictionaries in insertion
--              order, `sorted`, f-strings, JSON values, and the regular expressions of the sources,
--              matched by derivatives. A text is a list of characters; where a source looks inside a
--              text the model reads its code points. Case changes and `\d` are those of ASCII, or a
--              parameter (`CharClasses`). Prelude.Floats takes the arithmetic on ACU amounts as a
--              record of operations; the examples put hundredths in its place.
-- Domain       hardening_loop/domain/enums.py: the enums with their values, ranks and sets. A set is
--              a Boolean function.
-- Models       hardening_loop/models/tables.py and hardening_loop/config.py: the columns and
--              constants that the rules read.
-- Ingest       hardening_loop/ingest/records.py and hardening_loop/ingest/normalize.py: identifiers,
--              package names and keys (`RawVuln.dedupe_key` is `vuln_dedupe_key`), and the merge of
--              the records of both scanners into one finding for each key (`normalize`). The finding
--              that the loop mutates is stored again under its key.
-- Classify     hardening_loop/classify/rules.py (`classify`, whose rules 2 to 5 are one function
--              each) and hardening_loop/classify/group.py (`group_findings`). What the package
--              `packaging` does with versions and specifiers is the parameter `Packaging`.
-- Lifecycle    hardening_loop/orchestrator/state.py: both transition tables and step functions. An
--              `InvalidTransitionError` is the result `invalid_transition`.
-- Engine       hardening_loop/orchestrator/engine.py, on a world of a work item, its one pull request
--              row (`_close_work_item` takes the first of the item), the session that it is bound to,
--              their check rows, the findings of the database, the log of
--              events and the calls made on GitHub and Devin; whether a call raises is asked of a
--              function. A write transaction is an `Attempt`: an exception rolls the rows back while
--              the calls stay made. Apply: `_wi`, `_finding`, `_sync_human_label`. Levels:
--              `_raise_level`, `_reset_level`, `_reverify_new_head`. Checks, Approval, Record, Retry and
--              Review: `_checks_verdict`, `_check_approval`, `_record_checks` and `_record_depth`,
--              `_retry_or_fail`, `_check_review` with its helpers; what Devin answers is a parameter.
--              Follow: `_apply_pr` and `_close_from_applied_runs`. Labels: what `poll_human_labels`
--              does for one item. Archive: the stored scans and `_later_run_saw`, `_family_ids`,
--              `_present_families`, `_is_ancestor`. Judging and Closing: `_close_work_item`.
--              Database: the rows of all work items. Regress, Drift and Rescan: `_regressions`,
--              `_drift` and `apply_scan_run`. The other files under Engine are proofs. `_wi` calls
--              itself on `blocked`, only where that event is valid, so that fuel 2 is enough.
-- Persist      hardening_loop/ingest/persist.py: `_upsert_finding` and `_finished_before`, on the rows of
--              findings with all the columns that a run describes.
-- Launch       hardening_loop/orchestrator/launch.py: what an operator may start or stop.
-- Policy       hardening_loop/orchestrator/policy.py: the policy on the files of a pull request, and
--              the tests of its repository and branch.
-- Gate         hardening_loop/gate.py: the verdict of the policy gate.
-- Devin        hardening_loop/devin/enums.py: a polled session and the tests on it.
-- Assess       hardening_loop/orchestrator/assess.py: the decision on a polled session, with the
--              whitelist of questions.
-- Depth        hardening_loop/verification.py: the ladder of components, the status of each from the
--              check runs of a head, the highest passed rung, and the claims of a session.
-- Vex          hardening_loop/ingest/vex.py: the validation of OpenVEX documents; an exception is a
--              fault, with the `TypeError` of an unhashable status told apart.
-- Closer       hardening_loop/orchestrator/closer.py: whether a run may close a finding, what it
--              shows of it, and the outcome. Versions, git ancestry and the printing of times are the
--              parameter `Outside`.
-- Tests        The theorems at concrete inputs and runs of the definitions.
--
-- How the parts meet: Ingest yields the findings that Classify sorts into kinds and candidates;
-- Launch and Engine move the work items of the candidates by Lifecycle's tables; Assess decides on
-- the session that Devin describes, Policy on its pull request, Depth and Engine.Checks on the check
-- runs of its head. Persist stores what a run reports; Closer, with Vex, decides from it what becomes
-- of each finding, and Engine.Rescan carries that out for the whole database.
--
-- Amounts, counts, ids and times are natural numbers. Loops are structural recursion; besides `_wi`
-- only the printing of numbers has fuel, one more than the number itself. Names of checks and the
-- texts of a classification's trace are taken to hold no quote, backslash or control character,
-- where Python shows them by `repr`.
--
-- Not modelled: HTTP clients, database sessions, the dashboard, the command line and the replay of
-- scenarios, which are input and output around these rules; the parsers of scanner files, the intake
-- of runs, metrics, lineage, and the parts of the engine that make and poll sessions.
pub mod Prelude
pub mod Domain
pub mod Models
pub mod Vex
pub mod Lifecycle
pub mod Closer
pub mod Devin
pub mod Gate
pub mod Launch
pub mod Policy
pub mod Assess
pub mod Depth
pub mod Ingest
pub mod Classify
pub mod Engine
pub mod Persist
mod Tests
