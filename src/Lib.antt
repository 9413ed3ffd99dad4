-- ===== src/Lib.antt =====
-- Ofelia, a job scheduler for Docker: the scheduler with its jobs, and the parts around it.
--
-- The program keeps a list of jobs and registers each with the package go-cron, which decides when
-- a job is due and then calls the wrapper of the job. The wrapper makes an execution with two
-- output buffers, runs the job through the middlewares of its chain, with the retries it
-- configures, ends the execution, notes it in the history of the job and gives the buffers back.
-- Jobs may depend on each other; those edges are wired into go-cron. Jobs come from files and from
-- the labels of containers, and a sync brings what the scheduler runs in line with them. Around
-- this stand a circuit breaker and a bulkhead for calls that may fail, the tokens, the logins, the
-- rate limiter and the jobs API of the web interface, the deduplication of error notifications,
-- the environment of jobs and the shutdown.
--
-- Each part is a module, which has the definitions, with modules below it for what is proved of
-- them and a module Examples with the theorems at concrete values:
--
--   Job          core/bare_job.go: `BareJob`, its counter of running executions and its history;
--                and the errors that jobs return.
--   Execution    core/common.go: `Execution`, from `NewExecution` through `Start` and `Stop` to
--                `Cleanup`.
--   Chain        core/common.go: `Context` with `Next` and `doNext`; the `Run` methods of
--                middlewares/overlap.go and, in one shape, of save.go, mail.go, slack.go and
--                webhook.go.
--   Container    core/common.go: `middlewareContainer`.
--   Retry        core/retry.go: `ExecuteWithRetry` and `calculateDelay`.
--   Wrapper      core/scheduler.go: `jobWrapper`, which composes all of the above but the
--                container.
--   Scheduler    core/scheduler.go: the registry of jobs. `GoCron` below it is the parameter that
--                stands for go-cron, with what that package documents; `Naming` has the lists of
--                jobs, `Consistency`, `Preservation` and `Histories` the invariant between the
--                registry and go-cron, `Running` has `Start` and the stops, `Queries` the methods
--                that read, `Tags` the removal by tag, `Updates` and `Switching` what updating
--                and disabling jobs does.
--   Concurrency  core/scheduler.go: the limit on concurrent jobs, `concurrencySemaphore` and
--                `maxConcurrentSkipJob`.
--   Workflow     core/workflow.go: `BuildWorkflowDependencies`.
--   Breaker      core/resilience.go: `CircuitBreaker`.
--   Bulkhead     core/resilience.go: `Bulkhead`.
--   Tokens       web/auth_secure.go: `SecureTokenManager`.
--   RateLimit    web/middleware.go: `rateLimiter`, and the address of a client behind proxies.
--   Dedup        middlewares/dedup.go: `NotificationDedup`.
--   Environment  core/envfile.go: env files, `MergeEnvironments` and `ResolveJobEnvironment`.
--   Sync         cli/config.go: `syncJobMap`, which brings the jobs of a configuration and those
--                of the scheduler together, with `replaceIfChanged`, `addNewJob`, `mergeJobs` and
--                `unionWebhookNames`.
--   Labels       cli/docker-labels.go: from the labels of containers to jobs, with the policies;
--                and `dockerContainersUpdate` of cli/config.go, which syncs them. `Keys`,
--                `Order`, `Splitting` and `Building` have what the theorems in the other modules
--                below share.
--   RunJob       core/runjob.go: `RunJob.Run` with its cleanup.
--   ServiceJob   core/runservice.go: `RunServiceJob.Run` with the watch of its service, and
--                `Mounts` and `Spec` with its specification; core/domain/service.go.
--   Annotations  core/annotations.go: annotations over their defaults.
--   Resilience   core/resilience.go: the token bucket `RateLimiter` and `Retry`; and
--                core/resilient_job.go: `ResilientJobExecutor`, which composes them with Breaker
--                and Bulkhead.
--   Clock        core/clock.go: `FakeClock`.
--   JobsApi      web/server.go: the handlers that change jobs, over Scheduler.
--   Login        web/auth_secure.go: `SecureLoginHandler`; and web/server.go: `authMiddleware`,
--                over Tokens.
--   Shutdown     core/shutdown.go: `ShutdownManager`, and `GracefulScheduler` with its tracked
--                jobs.
--   Common       what the modules share: tests and lists over native numbers, Go's integers,
--                texts.
--
-- A method on a pointer is a function that returns the new record, and a field keeps its name in
-- snake case. Where a shared object matters, it is in the state: the jobs of the scheduler are
-- numbers that its field `objects` looks up. Methods that hold a lock from start to end are one
-- step. The calls of the circuit breaker, the bulkhead and the limit on concurrent jobs are taken
-- apart into the steps between which other callers may come, as step relations. A panic is a
-- value, `Exit`. Log lines are left out everywhere.
--
-- Numbers: counters of 32 and 64 bits wrap around as in Go, written `% 2 ^ 32` and `% 2 ^ 64`.
-- Times are natural numbers of nanoseconds on the monotonic clock; durations that the code
-- compares with 0 are integers. The float product of the retry delay is exact below 2^53, and its
-- theorem is about delays that fit an int.
--
-- Loops are structural recursion, on a list or on the retries left, but for `advanceTo` of the
-- fake clock, which takes a number of rounds: Clock/Arriving says how many are enough. The watch
-- of a service and the wait for tokens read from a list, of rounds or of times, what happens in
-- each turn. The recursion of `doNext` is on the middlewares behind the current one, since each
-- `Next` moves on by one.
--
-- Parameters, which stand for what is outside: go-cron; the clock; what a job's `Run` does; what a
-- notification does; random tokens and identifiers; the SHA-256 of a text; the type name of a
-- middleware; the answers of Docker; mapstructure's decoding of labels, and JSON; bcrypt; the
-- limiters of golang.org/x/time/rate; the float products of the delays of `Retry`. The splitting
-- of commands and their validators, which rest on regular expressions, are parameters too. What
-- the theorems need of them is a hypothesis, and the examples have it for a concrete one.
--
-- Not modelled: the Docker adapters, the jobs by docker exec, on the host and by docker compose,
-- the HTTP handlers that only read, the commands of the command line and the reading of
-- configuration files, the metrics and the sending of notifications, which are input and output
-- around the parts above; validators and presets, which rest on regular expressions and on files.
-- Of the shutdown, the hook of the web server; of the labels, the filters of containers and the
-- merging of global settings; of the resilient executor, the setters and the recorder of metrics;
-- and negative durations of the fake clock.
pub mod Common
pub mod Breaker
pub mod Bulkhead
pub mod Job
pub mod Execution
pub mod Retry
pub mod Chain
pub mod Wrapper
pub mod Container
pub mod Scheduler
pub mod Workflow
pub mod Tokens
pub mod Dedup
pub mod Shutdown
pub mod Environment
pub mod Concurrency
pub mod RateLimit
pub mod Annotations
pub mod Sync
pub mod Labels
pub mod RunJob
pub mod ServiceJob
pub mod Resilience
pub mod Clock
pub mod JobsApi
pub mod Login
