-- ===== src/Lib.antt =====
-- A verification library for the revenue recovery agent of this repository.
--
-- The program. A failed payment becomes a case. Events move the case through a state machine, and
-- the event store keeps the log, the revision that the log reduces to, and the row that shows it
-- (packages/core, packages/db). Tier 0 resolves the cases that the decline taxonomy and the
-- playbooks decide; for the others specialists write claims on a blackboard, a router keeps the
-- claims that new evidence leaves valid, a reducer settles on a cause and an optimizer ranks the
-- actions. The policy engine decides whether an action may run and is the only minter of capability
-- tokens. The executor verifies and burns the token under the lease of the obligation, records the
-- attempt and calls the provider. The verifier closes the case when the money that arrived covers
-- what is owed. The scheduler fires later actions; incidents park cases and the release controller
-- lets them back in stages (packages/engine, packages/agents). The case manager opens one case per
-- obligation, the checkout watcher finds abandoned sessions, the intent router decides what a
-- customer's reply means, and the detector decides which segments of the traffic open an incident.
-- The provider reports money by a webhook (packages/connectors, packages/console). The attribution
-- compares the treated cases with a randomised holdout.
--
-- The files. Each module is named for the part it models, and its children for what they prove.
--   Base            lists, tests, integers and sorting over the native numbers
--   Core.Types, Core.StateMachine   packages/core/src/types.ts, state-machine.ts
--   Core.Events                     packages/core/src/events.ts
--   Core.Actions, Core.Taxonomy, Core.Playbooks   actions.ts, taxonomy.ts, playbooks.ts there
--   Core.Capability, Core.Json      packages/core/src/capability.ts
--   Core.Policy, Core.Roles         packages/core/src/policy.ts, roles.ts
--   Core.Stats                      packages/core/src/stats.ts
--   Core.Floats                     the floating-point numbers, as a parameter
--   Core.Platform                   what the code calls of the runtime, as parameters
--   Db.Tables                       rows of migrations/
--   Db.CaseEvents, Db.Ledger        packages/db/src/case-events.ts, ledger.ts
--   Engine.Tier0, Engine.WorkRouter, Engine.Blackboard, Engine.Scheduler, Engine.ObligationLease,
--   Engine.PolicyEngine, Engine.MandateSequencer, Engine.Incident, Engine.ReleaseController,
--   Engine.Reconciler, Engine.Verifier, Engine.CaseManager, Engine.IntentRouter,
--   Engine.CheckoutWatcher, Engine.Detector
--                                   the files of these names in packages/engine/src
--   Engine.Executor, Engine.TokenBurner   executor.ts and token-burn.ts there
--   Agents.Optimizer, Agents.DeliberationReducer, Agents.Specialists, Agents.CachedProvider
--                                   optimizer.ts, reducer.ts, specialists.ts, cached-provider.ts
--                                   in packages/agents/src
--   Agents.Invocation, Agents.AgentRuntime   runtime.ts there: one role's work, and a run
--   Connectors.Adapter, Connectors.SimulatedPsp, Connectors.Webhook
--                                   adapter.ts, simulated-psp.ts, webhook.ts in
--                                   packages/connectors/src
--   Console.WebhookRoute            packages/console/src/webhook-route.ts
--   Attribution.Rng, Attribution.Holdout, Attribution.Estimator
--                                   rng.ts, holdout.ts, estimator.ts in packages/attribution/src
--   Sim.World, Sim.Replay           packages/sim/src/world.ts, replay.ts
--   Examples                        the theorems at concrete inputs
--
-- The correspondence. A function keeps its name in the spelling of this library (canTransition is
-- can_transition). A class is its state as a record or a list of rows, passed and returned; a table
-- is a list of rows in the order of their insertion, and an UPDATE … WHERE is update_where. What a
-- call throws is a value of an error type. The clock's reading, a random nonce and what a provider
-- answers are arguments. The amounts, times and counts are the native ℕ, with what a subtraction
-- below zero does written out; scores and sequence numbers are integers. The rates, p-values and
-- intervals of the statistics and the attribution are of a parameter, the record Floats of the
-- operations of floating-point numbers; other rates and confidences are in hundredths or parts of a
-- unit. The words of the seeded generator wrap at 2 ^ 32. Every recursion is on the structure of a
-- list, a number or a JSON value, so no fuel is needed.
--
-- Not modelled: the texts for people (reasons, rationales, errors' messages), the YAML parser, the
-- prompts and the language models' providers, the adapter of the real PSP, the driver of the
-- simulation, the console's pages and the scripts. What a model or a timer does in a run is an
-- argument. Statements of one transaction are one step; a call that spans several transactions
-- keeps what it wrote before it threw.
pub mod Base
pub mod Core
pub mod Db
pub mod Engine
pub mod Agents
pub mod Examples
pub mod Attribution
pub mod Connectors
pub mod Console
pub mod Sim
