-- ===== src/Lib.antt =====
-- crosmos is a memory service of two Cloudflare workers over one Postgres database: the API worker
-- (apps/api) admits requests, stores sources and answers searches; the ingestion worker
-- (apps/ingestion) takes the jobs that the API queues, cuts their sources into chunks and extracts
-- memories from them. This library models the parts in which they decide: who is admitted, who owns
-- a job, what becomes of a delivery, how a run works off its sources in batches and bills them, how a
-- text is cut, who sees whose memories, and what a token of a session is still good for.
--
-- Base: shared types and lemmas. Int has the limits for which -1 means none, Dict is JavaScript's
--   Map in insertion order, Tables has a database table as the list of its rows with the statements
--   on it, Result is a call that returns or throws.
-- RateLimit: apps/api/src/integrations/rate-limit. LimiterDo is the Durable Object of limiter-do.ts
--   with both of its roles, the window counters (`tick`, `limit`) and the leases (`acquire`,
--   `release`, `purge`); a request is one step, since its handler awaits nothing but its own body,
--   before it reads or writes the instance's state. OrgDo and OrgKv are the two org limiters of do.ts and kv.ts over the types of
--   port.ts. The KV namespace is a record of its two operations; that a write is
--   read at once is a hypothesis (`IsImmediate`), and an eviction of a Durable Object, which loses its
--   counters, is an event of a history. What a round trip to a
--   Durable Object may come to (`Wire`) is an argument. Window, Lease, AgreeOn, KvKeys, Agree and
--   History hold the proofs.
-- Jobs: the table `ingestion_jobs` (packages/db/src/schema/ingestion-jobs.ts) with the two modules
--   that write it: Consumer is apps/ingestion/src/job-store.ts, PgStore is
--   apps/api/src/integrations/job-store/pg.ts. Each statement is one step on the table; a history
--   is a list of statements of both sides with their times (Terminal.Op). `PgJobStore.updateStatus`,
--   which no caller uses and which has no guard, is a definition but no step of such a history.
-- Delivery: apps/ingestion/src/queue-consumer.ts. The handler gives the list of its calls on the
--   queue; what `processIngestion` returns or that it throws, and whether a publication is carried
--   out, are arguments, and so is the number of retries that the platform makes before it moves a message
--   to the dead-letter queue. Durable counts the copies of a job in both queues. Chain follows one job
--   over its deliveries: a copy that is delivered again because an ack is lost is not followed.
-- Ingestion: the run of one job, apps/ingestion/src/process-ingestion.ts. Sources is source-status.ts
--   over the table `sources`, Usage is packages/db/src/usage-rollup.ts, Run is what the loop does with
--   one source (the stop check, the chunk budget, the second gate, the attempts and their outcome),
--   Process is the run from the claim of the job in Jobs to the outcome that Delivery settles. What
--   `ingestSource` gives for a source, an attempt and a budget is an argument, of the type that
--   Pipeline gives; what other workers do to the job before each source is one too. The retry loop is
--   on fuel, the number of attempts. Rows and Presence follow one source through the statements,
--   Settled, Complete, Accounts, Billing and History hold the proofs.
-- Pipeline: apps/ingestion/src/ingestion/pipeline.ts. Artifacts is what ingestion derives from a source
--   and `purgeSourceArtifacts`, Batch is `planBatch`, Windows is the loop over the windows of a batch
--   with their transaction, Ingest is `ingestSource` up to the checkpoint in the source's `meta`. Where
--   an outside call fails, the rows stay as they are by then. The loop over the windows is on fuel, the
--   chunks of the batch, since a window takes at least one. Edges is edges.ts. Keys, Counts, Purge, Plan,
--   Once, Retry, Graph and History hold the proofs.
-- Dispatch: apps/api/src/features/sources/dispatch.ts: the jobs of a request on their way to the queue,
--   and the rollback of a request that got nowhere.
-- Auth: apps/api/src/features/auth. Cache is the store of
--   apps/api/src/integrations/cache/port.ts with the one of memory.ts; the one over Cloudflare KV is a
--   parameter, whose laws (`Denylist.Keeps`) name the shortest life that it takes. Tokens is
--   refresh-tokens.ts, access-revocation.ts and the handlers of /refresh and /logout in routes.ts; a
--   decoded token is an argument. Rotation and Denylist hold the proofs.
-- Search: Tsquery is apps/api/src/features/search/tsquery.ts over texts of UTF-16 code units; Bounded
--   holds the proofs.
-- Chunking: apps/ingestion/src/ingestion/chunking. Text is text.ts, Conversation is conversation.ts
--   from the turns on, for sizes that are positive: it throws on others. A text is the list of its UTF-16 code units. The recursive splitter is on
--   fuel, the length of the text and one: every recursive call is on a part that is shorter. A hard
--   split and the loop over the segments take as many rounds of fuel as there are units or turns,
--   since each round takes at least one.
-- Visibility: apps/api/src/features/visibility/service.ts over packages/db/src/schema/visibility.ts.
--   Graph is the worklist of `closureForGroupMembers`; its fuel is the number of grants and of
--   starts and one, since each group enters the worklist once. A recursive query (`WITH RECURSIVE`
--   with `UNION`) gives a set, and the same worklist computes it.
-- Admission: Entitlements is packages/runtime/src/entitlements.ts, Quota is
--   apps/api/src/features/orgs/entitlements.ts, Preflight is
--   apps/api/src/features/sources/gates.ts over any rate limiter; it counts the jobs of Jobs.
-- Maintenance: Sweep is apps/api/src/lib/sweep-retry.ts; the fuel of its loop is the number of
--   attempts that are allowed.
--
-- Numbers that the code never makes negative are natural numbers; times are milliseconds, dates
-- days. Each operation is one step on its tables, as if its statements ran with no other in
-- between; where the code depends on a single statement for that (a claim, a guarded insert), the
-- step is that statement. Logs, metrics, traces and the columns that no modelled operation reads
-- are left out.
--
-- Not modelled: the extraction by language models and what it prompts, embeddings, entity resolution,
-- the vector store and the reranker, the search pipeline and its ranking, API keys, signatures and
-- OAuth, billing by the payment provider, the other routes and their schemas, the admin worker, the
-- listings that only read, and the parts that rest on regular expressions (slugs, role prefixes).
pub mod Base
pub mod RateLimit
pub mod Jobs
pub mod Delivery
pub mod Chunking
pub mod Visibility
pub mod Admission
pub mod Maintenance
pub mod Ingestion
pub mod Pipeline
pub mod Dispatch
pub mod Auth
pub mod Search
