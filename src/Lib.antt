-- ===== src/Lib.antt =====
-- A model of the workers and clients of the Camunda 8 JavaScript SDK, and proofs about it.
--
-- The program. The SDK talks to Camunda 8 over gRPC and REST. Its own logic is in the parts that
-- keep state between calls: workers that activate jobs, within a capacity and through failures of
-- the server; subscriptions that poll a query and emit what is new; the HTTP client, which tries
-- requests again; and the OAuth provider, whose headers all clients use.
--
-- How the model reads the program. JavaScript runs one turn of the event loop at a time. State that
-- closures or objects keep is a record; each handler is a function on it, with the same guards in
-- the same order; a turn is what wakes the program up: a timer, an answer, an event of a stream, a
-- call. `step` gives what a turn does and `run` a sequence of turns in any order, so a theorem about
-- every list of turns covers every interleaving. What a turn finds nobody waiting for has no effect.
-- Answers of servers, handlers, hooks and predicates are parameters or come with the turn.
--
-- Base: shared names, lists, maps, Booleans, integers.
-- StreamLifecycle: src/zeebe/lib/StreamLifecycle.ts. `attach_step` is the adapter of `attachStream`,
--   `transition` the state machine of `createStreamStateMachine`, and `backoff_delay_ms`,
--   `get_open_error` the functions of these names.
-- StreamWorker: src/zeebe/lib/ZBStreamWorker.ts. `Session` is the closure state of one `streamJobs`
--   call; Recovery, Activation and Stream hold its inner functions (`scheduleReconnect`, `onStreamDown`,
--   `backfill`, `drain`, `runDrain`, `schedulePoll`, `openStream`); Step composes them into turns.
--   It uses StreamLifecycle for the handle's state and for the raw stream's events.
-- QuerySubscription: src/lib/QuerySubscription.ts. Hash is `hashString`, Tracking the window of
--   emitted items, Emission `defaultPredicate` and `safeEmit`, Poll the polls and their locks.
-- CamundaJobWorker: src/c8/lib/CamundaJobWorker.ts, the worker over REST.
-- GrpcWorker: src/zeebe/lib/ZBWorkerBase.ts and src/zeebe/zb/ZBWorker.ts, the polling worker over
--   gRPC. The root file has the operations, Step the turns.
-- HttpClient: src/lib/HttpClient.ts. Delay is the retry policy, Attempt is `executeOnce` with the
--   hooks before it, Execute is `executeWithRetry`, Promise is `createResponsePromise`, Merge is
--   `mergeOptions`.
-- OAuthProvider: src/oauth/lib/OAuthProvider.ts. Caches holds the memory and file caches, Headers is
--   `getHeaders`, Step the end of a token request and the calls that clear caches.
-- LosslessJson: src/lib/LosslessJsonParser.ts. Parse is `losslessParse` and `parseWithAnnotations`,
--   Stringify is `losslessStringify`; Clean and RoundTrip are the proofs about them.
-- PollingOperation: src/lib/PollingOperation.ts.
-- GrpcConnection: Log is src/zeebe/lib/StatefulLogInterceptor.ts; Signals joins the readiness timers
--   of src/zeebe/lib/GrpcClient.ts, the startup phase of src/zeebe/lib/GrpcMiddleware.ts and the
--   events of src/zeebe/zb/ZeebeGrpcClient.ts, which listen to one another; Retry is
--   `executeOperation` of the latter.
-- AuthProviders: src/lib/ConstructOAuthProvider.ts, and in Cookie
--   src/oauth/lib/CookieAuthProvider.ts. Selection and Cookie/Given are the proofs about them.
-- Configuration: Address is src/lib/ZeebeGrpcAddressUtils.ts with its callers, Translation is
--   `translateToOcaEnvOverrides` of src/lib/CamundaClientConfigTranslator.ts.
--
-- Bounds and fuel. Numbers are unbounded; times are whole milliseconds. `execute_with_retry` is on
-- fuel for the attempts, of which one more than `limit` is enough with the default delay; a
-- `calculateDelay` of the user's may ask for attempts without end. `polling_operation` and
-- `retry_on_failure` are on fuel for their calls; their theorems say how much is enough. No other
-- function is on fuel.
-- The hash keeps the 32-bit wrap-around of the shift; its sums are exact below 2^53, so for texts of
-- less than about two million characters.
--
-- A JSON number is its text: lossless-json, the reading of a number and promise-retry are parameters.
--
-- Not modelled: log text, the gRPC and HTTP transports, TLS, file modes and file names, generated
-- code; the clients that make one call per method; responses on a gRPC stream that another one
-- has replaced, a second request that a late error of a stream lets begin beside the first, turns
-- between the actions of one gRPC job handler, and the stalled state of the gRPC worker; the client-side timeout of a gRPC stream;
-- the values that the constructor of a Dto gives to its fields (`losslessParse` begins with an object without fields);
-- the merge of the configuration with the environment, which lodash does.
pub mod Base
pub mod StreamLifecycle
pub mod StreamWorker
pub mod QuerySubscription
pub mod CamundaJobWorker
pub mod HttpClient
pub mod OAuthProvider
pub mod GrpcWorker
pub mod LosslessJson
pub mod PollingOperation
pub mod GrpcConnection
pub mod Configuration
pub mod AuthProviders
