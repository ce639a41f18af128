-- ===== src/Lib.antt =====
-- NimbusNet: a development about the program's own decisions, those of its Python services.
--
-- NimbusNet watches the network between cloud regions. Agents and a control plane in Go measure and
-- route (not modelled here); the Python services decide. Five parts of them are modelled.
--
-- The SRE service (sre-operations-05/sre) is told when a region degrades. It opens an incident,
-- picks a runbook, runs its steps, reports the outcome to the incident and the control plane, and
-- tells people. Its modules:
--   Sre.Types       sre/types.py: Incident, Runbook, RunbookStep, RunbookResult
--   Sre.Incidents   sre/runbooks/incident_manager.py: IncidentManager. `open` is `open_incident`,
--                   the other methods keep their names. Methods has the calls as data, Reload
--                   `_load_active`, and Board the abstract view that the manager implements
--   Sre.Library     sre/runbooks/library.py: the runbooks and `select_runbook`
--   Sre.Executor    sre/runbooks/executor.py: RunbookExecutor; `_run` is `run`, with its `try` block
--                   `run_body` and the loop `run_steps`; `_execute_step` is `execute_step`, with a
--                   round of its loop `attempt`
--   Sre.Notifier    sre/notifications/notifier.py: Notifier, each method as the deliveries it makes
--   Sre.Postmortem  sre/postmortem/generator.py: PostmortemGenerator and its files; Histories has
--                   what happens to them over time, restarts included
--   Sre.Server      sre/server/server.py: the handlers, in the wiring of main.py, over all the others;
--                   Listings has what it lists
-- The executor takes the manager's methods and the library's selection as they are modelled, and the
-- handlers take those of all the parts.
--
-- The machine learning service (ml-intelligence-03/ml) scores what the agents measure, shares traffic
-- between regions and learns from faults:
--   Ml.Features     ml/models/feature_extractor.py: `extract`, with the types of ml/models/types.py
--   Ml.Lstm         ml/models/lstm.py: LSTMCell and NimbusLSTM
--   Ml.Classifier   ml/models/xgboost_classifier.py: NimbusXGBoostClassifier
--   Ml.Forest       ml/models/isolation_forest.py: NimbusIsolationForest
--   Ml.Bandit       ml/models/bandit.py: RegionArm and NimbusMultiArmedBandit
--   Ml.Pipeline     ml/pipeline/scoring_pipeline.py: ScoringPipeline; the body of `score` up to the
--                   network's vector is `pushed`, the rest `finish_score`
--   Ml.Serving      ml/serving/serving.py: the handlers, over the pipeline and the flywheel
--   Ml.Flywheel     ml/flywheel/flywheel.py: DataFlywheel; `_append` is `append`
--   Ml.Retrainer    ml/flywheel/retrainer.py: RetrainingOrchestrator, over a `Learning` that stands
--                   for the libraries
-- The pipeline takes the features, the network, the classifier, the forest and the bandit as they are
-- modelled. numpy, scikit-learn and xgboost are records of functions that may raise: Ml.Lstm.Numpy,
-- Ml.Forest.Sklearn and Ml.Classifier.Backend. A theorem that relies on more than that names the
-- documented law: an isotonic regression and a logarithm do not decrease, and the sampler of the Beta
-- distribution (Ml.Bandit.Gains.IsSampler) raises for a parameter that is not positive.
--
-- The chaos gate (chaos-ci-gate-06) injects faults before a merge and decides whether it may go on:
--   Chaos.Injector  injection/qdisc_injector.py: QdiscInjector; `wait_for_healing` is `wait_until`
--                   on fuel, the monitor's thread is `monitor_wake`
--   Chaos.Runner    runner/chaos_runner.py: ChaosRunner; `_run_suite` is `run_scenarios`, then
--                   `figures`, then `with_gate`; Command has the command line and the files
--   Chaos.Budget    ci/budget_enforcer.py: BudgetEnforcer
--   Chaos.Bridge    flywheel/bridge.py: FlywheelBridge
--   Chaos.Orchestrator  chaos/gameday.py: GameDayOrchestrator; the phases of `_run_multiphase` are
--                   `run_phases`, the scenarios of `run_session` are `run_all`
-- The runner and the game day take the injector as it is modelled, and the runner takes the reading
-- of the state file from Budget.
--
-- A game day is controlled by an operator (integration-07/gameday-control):
--   GameDay         controller.py: GameDayController and SessionHandle; `wait_if_paused` is
--                   `wait_until` on fuel; Operator has the command line
--
-- Before the system starts, the contracts between its services are checked (integration-07/hardening):
--   Contracts       contract_validator.py: the checks, `CONTRACTS` and `validate_all`; its `main` is
--                   `exit_code`
--
-- How the code is modelled. Times are whole nanoseconds, milliseconds or microseconds, as the code
-- has them; a float that is only stored is a whole number of millionths, a percentage one of
-- thousandths of a percent; rewards and weights are exact fractions. Numbers are unbounded, as
-- Python's integers. Objects that two places share (incidents, sessions) lie on a heap, and a dict
-- is an association list in the order of insertion. What a lock guards is one step. Clocks, shell
-- commands, tc, HTTP answers and files come from an environment or an argument, which every theorem
-- takes as arbitrary; a clock of the injector only moves forward. A file that is refused (of an
-- incident, a postmortem, a label, a model) and a tc command that fails or is not there end as the
-- code has it: in a caught exception, or in one that is an outcome of the step, with what had changed
-- by then; the flywheel's own files are always written. The qdiscs of the interfaces are part of the
-- injector's state. A text that is built only to be read by people is kept as what it is built from.
--
-- Fuel. Two loops wait for a deadline on fuel. The injector's sleeps a second in each turn but the
-- last, so that the timeout in seconds and two more turns are enough; the game day's sleeps at least
-- a millisecond, so that the longest wait in milliseconds and one more turn are enough. That they
-- come to their end is part of what is shown of them. The other loops are over lists or a number of
-- retries.
--
-- Not modelled: the Go control plane and the eBPF agents, the web servers, the listings of the
-- scoring service, the numerical libraries, the formatting of texts and JSON, logging and metrics,
-- the training of the recurrent network and the random samples that the models start with. Each run
-- of the executor has its own copy of a runbook's steps, which the program shares between runs.
pub mod Prelude
pub mod Sre
pub mod Ml
pub mod Chaos
pub mod GameDay
pub mod Contracts
pub mod Tests
