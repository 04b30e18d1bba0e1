-- ===== src/Lib.antt =====
-- The control logic of DukaScraper, a crawler that follows links from a seed, hands each page to
-- one of three workers (surface, deep, dark) over a topic, and keeps the state of its jobs in
-- PostgreSQL.
--
-- The parts. A job is a row with a status and a counter of outstanding tasks. Each crawl request
-- on the topic is one task. A worker that has fetched a page extracts its links, filters them to
-- the seed's scope, reserves a task for each, and puts a request on the topic for those that were
-- not visited; it then settles its own task. The last settlement ends the job. The rules engine
-- picks the worker of a URL. People reach all this through an API: an account signs in for a pair
-- of tokens that name a session, administrators manage the accounts, and the findings of the
-- models raise alerts that each reader marks as read.
--
-- Base: lists, texts and tables that the parts share. A text is a list of character codes.
-- CrawlLog: the table crawl_log and _describe_empty_result (app/storage/postgres/client.py).
-- Jobs: the table jobs and the methods of PostgreSQLClient that write it
--   (app/storage/postgres/client.py): create_job, update_job_status, pause_job, resume_job,
--   register_job_tasks, complete_job_task, fail_job. Each SQL statement is one update of the
--   rows that its WHERE clause names; Jobs/Runs has the sequences of calls.
-- Url: what the program uses of urllib.parse, as far as its documentation fixes it.
-- Assignment: WorkerAssignmentEngine, assign_worker and check_escalation
--   (app/common/constants/worker_assignment.py), and infer_target_layer
--   (app/services/link_extraction_service.py).
-- Links: filter_links and the checks it makes (app/services/link_extraction_service.py).
-- Crawl: extract_and_queue_children (app/services/recursive_crawl_service.py).
-- LlmQueue: LLMAnalysisQueue (app/services/llm_analysis_queue.py), the table from which workers
--   claim the items they analyse. LlmQueue/Runs has the sequences of calls, by any workers.
-- Workers: who owns a message of the topic, and what is done to its job (workers/common.py).
-- Dedup: DedupService (app/services/dedup_service.py) over the replies of Redis; without
--   RedisBloom it is an instance of the store of visited URLs that Crawl asks for. With RedisBloom
--   it is not, and the theorems of Crawl that say that URLs are fresh do not apply.
-- Fingerprint: normalize_content and content_hash
--   (app/services/content_fingerprint_service.py).
-- SimHash: hamming_distance, is_near_duplicate, is_stale (the same file) and check_near_duplicate
--   (app/storage/postgres/client.py).
-- Proxies: ProxyManager (app/common/proxy_manager.py).
-- Accounts: the tables users, verification_tokens, auth_sessions and audit_logs, and the methods
--   of PostgreSQLClient on them (app/storage/postgres/client.py); Accounts/Tokens and
--   Accounts/Sessions have those on codes, reset tokens and sessions.
-- Api: the state of a request handler (the tables, Redis, the mail that is out), what it is given,
--   and enforce_rate_limit (app/security/rate_limit.py). A handler is a function from the state to
--   a reply and the state: what was written before an HTTPException stays written.
-- Submission: submit_crawl_job (app/pipeline/main.py), which makes a job of a URL and puts its first
--   request on the topic, and its guard get_active_job_for_url (app/storage/postgres/client.py);
--   Submission/Retry is the route retry_job (app/api/routes/jobs.py).
-- Auth: the tokens and dependencies of app/security/auth.py, and the routes of
--   app/api/routes/auth.py: Auth/Login (signing in and out, the first code), Auth/Passwords
--   (resets and the own profile), Auth/Signup (the three steps of a new account), Auth/Admin
--   (managing users). Auth/Requests has them as requests and sequences of requests.
-- Alerts: the tables alerts and alert_reads and the methods of PostgreSQLClient on them
--   (app/storage/postgres/client.py), record_alert and record_system_alert
--   (app/services/alert_service.py), whose rows a caller sees (app/security/scope.py), and the
--   routes of app/api/routes/alerts.py.
-- GroqBatch: build_batch_lines, submit without the calls of the service, encode_batch_file,
--   parse_result_file and collect (app/services/groq_batch.py); GroqBatch/Values has the values of
--   JSON, GroqBatch/Lines str.splitlines.
-- ExternalLinks: the table discovered_external_links and the methods of PostgreSQLClient that
--   record and review its links (app/storage/postgres/client.py); ExternalLinks/Review is the route
--   review_discovered_links (app/api/routes/jobs.py).
--
-- What is taken as an argument: the time; tldextract (Extract) and re.search with the user's
-- patterns (Search), either of which may fail; the key that normalize_url gives a URL, which may be
-- any; the broker's answers; the links that the page's markup gives; the store of visited URLs with
-- what it promises; json.loads on queued payloads; the rows that another transaction holds; re.sub
-- and re.search with the patterns of the program; SHA-256; what a Bloom filter answers;
-- random.choice; json.loads and json.dumps of a batch; JWT, the hasher of passwords and the
-- counters of Redis (Platform); for each request its time, what uuid4 and secrets draw, and whether
-- its mail goes out (Call).
--
-- Choices. Lower case is that of ASCII, and in the content hash also of the two codes whose lower
-- case has letters of ASCII. Redis answers, and a stored hash of a password is a hash. urlparse is without the checks of bracketed hosts and of
-- NFKC; a netloc with a bracket that is not closed is refused. The connection pool is taken for
-- granted, and each call runs as a whole, as its transaction does; interleavings are sequences of
-- calls. Groups of the log with equal counts keep the order of their first row, and rows of the
-- queue with equal times that of the table, which PostgreSQL leaves open. Loops are structural, but
-- for that of hamming_distance, which has 64 rounds of fuel: each round clears one of at most 64
-- set bits. The alert that fail_job raises and the stages that workers publish are left out.
--
-- The checks of the request models run before the handlers and are left out, as are mails that
-- carry no secret.
--
-- Not modelled: the drivers of browsers and of HTTP, parsing of HTML, the models and stores that
-- the later workers call, most of the API's routes for jobs, those for articles and exports, and
-- the user interface.
pub mod Base
pub mod CrawlLog
pub mod Jobs
pub mod Url
pub mod Assignment
pub mod Links
pub mod Crawl
pub mod LlmQueue
pub mod Workers
pub mod Dedup
pub mod Fingerprint
pub mod SimHash
pub mod Proxies
pub mod Accounts
pub mod Api
pub mod Auth
pub mod Alerts
pub mod GroqBatch
pub mod ExternalLinks
pub mod Submission
