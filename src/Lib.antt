-- ===== src/Lib.antt =====
-- Verification library of a scanner for broken access control: responses of several users are
-- compared, classified as issues and reported, and an executor sends the requests from queues.
--
-- Parts, with paths from the repository's root:
--   Models, Json: models.py, and the JSON values that json.loads returns. Their fields have the
--     names of the source.
--   Diff: diff_engine.py. Diff.Flatten is _flatten_json, _extract_ids and _field_diff; Diff.Similarity
--     is difflib.SequenceMatcher.ratio behind _body_similarity; Diff.Compare is compare_responses,
--     detect_data_leak and batch_compare.
--   Classify: issue_classifier.py, one function for each checker; Classify.Meta holds ISSUE_META, the
--     severity rules and the steps to replay a request.
--   Report: report_generator.py. Report is build_report; Report.Data is the dict of the JSON report,
--     Report.Markdown and Report.Html the two texts, Report.Save the files of save_report.
--   Collector: ScanResultCollector of result_collector.py, as a record of its attributes.
--   Redis: the commands that the executor uses, as a store with their documented effects.
--   Queue: executor/task_queue, the payload and the publisher; Queue.Consumer is the consumer.
--   Limiter: executor/rate_limiter/limiter.py, the Lua script, the buckets in the process and the
--     loop of RateLimiter.acquire; Limiter.Arith is the arithmetic that it needs.
--   Database: the rows of executor/persistence/models.py and what the worker asks of the database.
--   Engine: executor/workers/engine.py, one function for each method that handles a task;
--     Engine.Slots is the loop of start, the places for tasks and stop, as steps.
--   Pool: executor/worker_manager/manager.py.
--   Discovery: OpenAPIParser of endpoint_discovery.py; Discovery.Body reads bodies and parameters,
--     and Discovery.Result is its result.
--   Spec: the later OpenAPIParser of modules_unzipped/endpoint_discovery, which the executor imports;
--     Spec.Body resolves references and reads bodies and parameters, and Spec.Load reads a
--     specification from a text, a file or an address.
--   Bridges: executor/integration, from a specification to the tasks of a scan, with
--     generate_test_cases of the role swapper.
--   Api: the routes of executor/api/routes.py. Api.Tables is the database as they see it, Api.Submit
--     creates scans and tasks, Api.Discover is the discovery, Api.Progress, Api.Views, Api.Status,
--     Api.Telemetry, Api.Dashboard and Api.Reports read, Api.Jwt, Api.Compare and Api.RoleSwaps
--     analyse, Api.Copilot is copilot_query with its branches in Api.Copilot.Branches. Api.Assistant is
--     executor/api/copilot_routes.py, with the calls of the language models in Api.Assistant.Model, and
--     Api.Main is the start, the stop and the health of executor/api/main.py.
--   Analysis: executor/analysis/report_service.py; Analysis.Responses turns rows into the responses
--     that the collector takes.
--   Crawler: api-crawler-module, from a fetched specification to the printed responses.
--   Prelude: tests, lists, texts and dicts that the parts share. Tests: runs at concrete inputs.
--
-- The collector buffers responses by endpoint, pairs them, and gives each pair to the diff engine and
-- the classifier; its flush makes the report. The publisher fills the lists that the consumer polls;
-- the worker takes a task, asks the limiter, stores the response and the status, and schedules a
-- failed task again, which the consumer moves back when it is due. The pool starts and stops workers
-- by the depth of the queues. The routes store tasks and publish them; the bridges make the tasks of a
-- discovery from the parsed endpoints; the report service feeds the stored responses to the collector.
--
-- Numbers: a status code, a count and a time are natural numbers (times in microseconds, in the
-- queues in milliseconds, in the pool in seconds); similarities are fractions, rounded to
-- ten-thousandths where the program rounds to four decimals, and a threshold is in ten-thousandths.
-- The limiter works over any ordered numbers with the laws that rounded arithmetic keeps.
--
-- Fuel: the matching of two texts has one round more than the first text is long, and more does not
-- change it. The loop of acquire has as much as its theorem says is enough for its timeout. All else
-- is structural recursion.
--
-- Parameters: uuid and time (Models.Stamp), the formatting and rounding of floats (Models.Floats,
-- Report.Texts.Formats), pydantic's texts (Queue.Codec), Redis, the database (Database,
-- Api.Tables), the answers of the server and of the clock, the decoding of tokens and of JSON,
-- json.dumps, the state of Redis that the routes show, what the parser of specifications reads from
-- files and addresses (Spec.Load.Loader), the message of an exception of it, the process of the
-- mutation engine, the answers of the language models, what drop_all and create_all do (Api.Main),
-- the requests of the crawler.
--
-- Not modelled: JSON numbers that are not integers; letters other than those of ASCII in lower and
-- upper, and digits other than those of ASCII in ids; the order of Python's sets, where the order
-- of first occurrence is taken; the expiry of keys in Redis but those of the buckets, where its
-- clock is taken to be that of the caller, and how it writes numbers; the order by value of members
-- of a sorted set with equal scores; the metrics and logs; a commit of a route that fails, and
-- exceptions of the file system; the streams of events, the HTTP executor and the heartbeat, the
-- files of endpoint_discovery.py, the frontend and the run scripts, which are input and output; the
-- older queues and the unpacked copies of other modules.
pub mod Prelude
pub mod Json
pub mod Models
pub mod Diff
pub mod Api
pub mod Analysis
pub mod Bridges
pub mod Spec
pub mod Crawler
pub mod Classify
pub mod Report
pub mod Collector
pub mod Redis
pub mod Queue
pub mod Limiter
pub mod Tests
pub mod Database
pub mod Engine
pub mod Pool
pub mod Discovery
