-- ===== src/Lib.antt =====
-- Verification of ChaosKit, the chaos testing framework (Go package chaoskit).
--
-- A scenario names a target, steps, fault injectors and validators. The executor (executor.go) sets
-- the target up, sets up and starts the injectors, executes the scenario a number of times or for a
-- duration, and stops and tears down in reverse. One execution runs the steps, each under the panic
-- recovery and the wrappers of the validators, then the validators, and makes an ExecutionResult.
-- The result goes to the metrics collector (metrics.go) and to the reporter (reporter.go), which
-- reads the validators' names back out of the errors' messages, sorts the failures by severity
-- (thresholds.go) and gives the verdict of the run (verdict.go, report.go).
--
-- Files, by the code that they model:
--   Text, Text/Search          strings, strconv and fmt as far as they are used, over lists of bytes
--   Dict, Errors, Platform     Go maps, error values and results, floats and formatting
--   Exec, Exec/Ensures         code that changes a state and may panic; defer and recover
--   Host                       core.go: the interfaces that the user implements
--   Recorder                   core.go, executor.go: event recorders
--   ChaosContext               chaos_context.go
--   Scenario                   scenario.go
--   Metrics                    metrics.go
--   Verdict, Thresholds, Report, Execution    verdict.go, thresholds.go, report.go, executor.go
--   Reporter                   reporter.go: names, severities, analysis, verdict
--   Executor                   executor.go: options, the chaos context, one execution, loops, Run
--   Validators                 the checks of the package validators
--   Validators/Loops           validators/infinity_loop.go
--   Reporter/Printing, Json, Junit    reporter.go, reporter_junit.go: the printed reports
--   Injectors                  injectors/error.go, injectors/panic.go, injectors/composite.go
--   Injectors/Client           what the code relies on of the Toxiproxy client
--   Injectors/Toxics, Proxies  injectors/network.go: the injectors and the manager of proxies
--   Injectors/Contextual       injectors/network_contextual.go
--   Injectors/Delay, Cancellation     injectors/delay.go, injectors/context_cancellation.go
--   Injectors/Patches          injectors/monkey_patch_common.go
--   Injectors/Monkey           injectors/monkey_patch_delay.go, monkey_patch_error.go,
--                              monkey_patch_panic.go, monkey_patch_timeout.go,
--                              monkey_patch_value_corruption.go
--   Testing, Entry             testing/testing.go; Run, RunWithLogger, RunWithSlogLogger of core.go
--   Pipeline                   from a run to its verdict
--   Tests                      a small world in which the models are run
--
-- How the state corresponds: State holds the user's world, the metrics collector and the reporter of
-- one executor. A target, step, injector or validator is a reference; Host gives each method as an
-- operation on the user's world, and answers which interfaces a value implements. An error that the
-- code returns is a value; a panic is an outcome that unwinds to the next defer or recover.
--
-- Bounds and fuel: counters of the metrics collector and durations wrap around at 64 bits; the
-- reporter's counters count the elements of a slice and are natural numbers. The loop of
-- runForDuration has no bound of its own and runs on fuel, one unit for each iteration; a run that
-- uses it up returns `none`. Where every iteration takes time, more fuel than there are units of time
-- in the duration is enough. Decimal numerals are printed with as much fuel as the number's value.
--
-- Concurrency: where calls of one component overlap and it matters, its critical sections are steps
-- in any order: a step relation for the cancellation injector (Injectors/Cancellation/Calls), and a
-- list of the events that a waiting call sees for the delay injector (Injectors/Delay/Window).
--
-- Not modelled: the injectors that burn CPU time or hold memory, the reflection behind monkey patches,
-- the failpoints, the exporters, the report viewer and the examples;
-- logging, mutexes (each operation is one critical section), file output and the
-- marshalling of JSON and XML. The order in which Go visits a map, and the order in which an unstable
-- sort leaves equal elements, is a parameter (Reporter/Orders) of which only the permutation laws are
-- used; so are float arithmetic and the printing of floats and instants (Platform). Text is ASCII.
mod Prelude
pub mod Text
pub mod Dict
pub mod Errors
pub mod Verdict
pub mod Platform
pub mod Thresholds
pub mod Execution
pub mod Report
pub mod Reporter
pub mod Exec
pub mod Host
pub mod Recorder
pub mod ChaosContext
pub mod Scenario
pub mod Metrics
pub mod Executor
pub mod Pipeline
pub mod Entry
pub mod Testing
pub mod Validators
pub mod Injectors
pub mod Tests
