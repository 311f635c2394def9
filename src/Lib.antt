-- ===== src/Lib.antt =====
-- Discovery-Application: the core of the backend under platform/backend/app.
--
-- The backend finds MCP servers, verifies them in the background and serves what it knows.
-- Candidates enter the server table through a deduplicating ingestion; a worker takes up queued
-- rows one at a time, screens each by the static prefilter, lets the verifiers run it, scores
-- the run and writes the verdict back; a search reads the table and never verifies anything.
--
-- Base holds the shared names, Boolean tests, lists over the native numbers, rounding to the
-- nearest even number and the median. The modules of Verification follow
-- platform/backend/app/verification:
--   Models     models.py: the enumerations and records.
--   Scoring    scoring.py: score_server, _confidence_from_attempts, ttl_days_for.
--   Checks     verifiers.py: AttemptOutcome, _build_soft_checks and the helpers at its end.
--   Pipeline   verifiers.py: VerificationPipeline._finalize, cut into the parts of the dict of
--              updates that it builds, _has_active_credential, _decision_from.
--   Registry   repository.py: VerificationRepository over the list of its rows, and
--              cascade_provider_reauth of verifiers.py.
--   Ingestion  ingestion.py: VerificationIngestionService.ingest.
--   Prefilter  prefilter.py: prefilter_server, prefilter_server_with_size and the excluded hosts, with
--              the limits of sandbox/package_size.py.
--   Install    verifiers.py: _local_tool_config; prefilter.py: local_package_from_install_cmd;
--              ingestion.py: the install command of a registry package.
--   Timeouts   timeout_policy.py: the budgets of a call, is_readonly_tool.
--   Judge      semantic_judge.py: the heuristic judge and its use after a language model.
--   Auth       ingestion.py: classify_auth.
--   Invocation verifiers.py: one call of a tool in their loops, _judge_output.
--   Exercise   verifiers.py: _exercise_local_tools, _exercise_remote_tools.
--   Local      verifiers.py: _verify_local, with what happens to its container.
--   Credentials verifiers.py: _credential_token_for, _refresh_provider_credential,
--              _flag_provider_reauth, over the rows of repository.py.
--   Remote     verifiers.py: _verify_remote, _handle_remote_auth, _refine_auth_metadata.
--   Verify     verifiers.py: VerificationPipeline.verify, the run and then the verdict.
--   Queue      queue.py: the choice of the next server, a round of the worker, its loop, the
--              TTL sweep, the ingestion of a candidate.
--   UserTest   bridge.py: record_user_verified_success.
--   BadgeLookup bridge.py: attach_verification_badges, over select_badge_rows of repository.py.
--   ColdMiss   queue.py: run_cold_miss_cascade, over ColdMissQueryRepository of repository.py.
-- The modules of Catalog are the catalog of items and the search in it:
--   Models     models/item.py, discovery/common/candidate.py: items and candidates.
--   Identity   deduplication/identity.py: the identity of a candidate.
--   Reliability reliability/engine.py: the score of an item and its approval.
--   Deduplication normalization/pipeline.py: the groups of items and what a group keeps.
--   Normalization normalization/pipeline.py: the items of a candidate, from a resolution or by
--              its metadata.
--   Admission  normalization/pipeline.py: which candidates become items, with the check of sizes.
--   Phase10    normalization/pipeline.py: Phase10Pipeline.process over any normalization.
--   Ranking    query/ranking.py: the relevance of an item and the order of the rows.
--   Planner    query/planner.py: the plan of a query, by the language model or without it.
-- Sandbox.Session is the store of test sessions, platform/backend/app/sandbox/session.py, over any
-- cipher that decrypts what it encrypted.
-- Sandbox.Oauth and Sandbox.OauthServers are platform/backend/app/sandbox/oauth.py: the store of
-- flows, the discovery of the authorization server, the registered clients and the forms.
-- Sandbox.AuthSignals is sandbox/auth_signals.py, the authorization failures inside a result.
-- Sandbox.Classifier and Sandbox.Readme are sandbox/classifier.py: how an item is tested.
-- Search.Application is the DB-first search, platform/backend/app/search/application.py: the merge
-- of catalog and live items, the gate of servable items, the limits and the metadata.
-- Search.Discovery is the live discovery beside it: concurrency.py, mcp_adapter.py (the cascade from
-- the official registry to GitHub) and orchestrator.py.
-- Search.Tiers is the order of the shown rows, platform/backend/app/verification/bridge.py.
-- Artifacts.DiskCache is the cache of artifacts, platform/backend/app/artifacts/disk_cache.py: its
-- paths and its files.
-- Tests holds runs on concrete data and an instance of each result.
--
-- A float check result is an exact fraction, and parts of a score are hundredths of a point. A
-- time is read from the clock by the caller, in microseconds for the verification and in seconds
-- for the session store. The order and choice of rows of a SELECT with a limit are the
-- database's: an engine is a parameter, with what SQL promises of it as hypotheses, and a scan
-- in order is an instance. The keys that hold a badge and the identity of a repository are
-- arguments in the same way. What urlparse and urlsplit, the digests, regular expressions, servers,
-- containers, the resolver of a deployment, the token endpoint, the package registries, the
-- environment, the embedding model and the language model answer is an argument too; so are
-- upsert_catalog_item and strip_registry_namespace. A reliability is in ten-thousandths and its
-- weighted sum exact over ninety days in microseconds, as are the parts of a ranking. The worker and
-- the verdict take the outcome of an attempt; Verify.attempt is one that the modelled runs give. A
-- number is printed on fuel that the number bounds, and the text of a result is read seven levels
-- deep, as the source does; all other loops recurse on the list of rounds, runs, tools, candidates,
-- items or rows.
--
-- Left out: the clients that start containers and speak MCP or HTTP, the registration of clients
-- at an authorization server, the clients of the discovery sources, artifact packages but their
-- cache, the configuration files and the source code of an item, the queries of the database, the
-- embeddings, the HTTP routes and the frontend.
pub mod Base
pub mod Catalog
pub mod Verification
pub mod Sandbox
pub mod Search
pub mod Artifacts
mod Tests
