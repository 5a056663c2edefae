-- ===== src/Lib.antt =====
-- A model of the Python code of the DbFirstPractice course stack: the integration services of Python/app
-- and the pure part of the public checkers under task/.
--
-- The parts and how they interact. A payment provider calls the receipt adapter (Python/app/adapter.py) back;
-- the adapter checks the callback, makes a receipt of it (receipt.py), signs it and posts it to the API. The
-- outbox dispatcher (dispatcher.py) claims deliveries in the database, posts each to the provider and records
-- the outcome under the lease of the row; the inbox reconciler (reconciler.py) calls a database function. All
-- three read their configuration from the environment (config.py) and post with http_client.py. The checkers
-- (task/week2/autocheck/public_check.py, task/week4/autocheck/public_check.py) judge a candidate's stack: the
-- rows of its views, its Compose file and its ports, its metrics and its schemas, and build a report that shows no
-- secrets; each first loads the published fixture.
--
-- Which file models which part:
--   Common      numbers, lists, texts, results with errors, and tables
--   Json        the values of Python's json module: loads (Parse, and Limits for its two limits), dumps (Print, Spaced), UTF-8 (Utf8)
--   Builtins    int(text), strip, split, startswith, replace, datetime.fromisoformat
--   App.Config      config.py: the loaders, each over an environment
--   App.Http        http_client.py: post_json
--   App.Receipt     receipt.py: validate_legacy, normalize_receipt, canonical_bytes, sign
--   App.Adapter     adapter.py: do_POST, from the request's bytes to the answer
--   App.Worker      calls that change the world outside, with a log of what was done
--   App.Dispatcher  dispatcher.py: classify_response, _attempt, run_once and main's loop
--   App.Reconciler  reconciler.py: run_once and main's loop
--   Outbox          the table delivery.outbox and its functions (Api/Migrations/014_delivery_domain.sql and
--                   015_week3_actions.sql): claim_outbox, succeed_outbox, fail_outbox
--   Outbox.Steps    what may happen to the outbox, as a step relation: calls, receipts, new rows, time
--   Week2.Attempts  job_attempts_consistent and terminal_failure_consistent
--   Week2.Views     the checks of versions, states, view schemas and dispatches, with their tables
--   Week2.Fixture   load_fixture and canonical_fixture_digest, over a directory of files (Load, Digest), and the
--                   keys of a fixture (Tables)
--   Week2.Compose   _published_ports, _volume_source, _normalize_image_id, _sql_literal, and the unsafe findings
--                   about a Compose file (Unsafe)
--   Findings        the findings that a check adds one after another, and the exceptions that end it
--   Week2.Reports   extract_cli_json, report_has_forbidden_keys, build_report
--   Week4.Receipt   the checker's own receipt, its bytes and signature
--   Week4.Schema    validate_json_schema, with the checks of a rule (Rules)
--   Week4.Metrics   parse_openmetrics: the samples' labels (Labels) and lines (Lines)
--   Week4.Report    _redact, report_has_forbidden_keys, build_report
--   Week4.Columns   the required columns of the views and _expected_column_type
--   Week4.Compose   the findings about a Compose file and about the ports of the running stack
--
-- State and errors. A worker's call is a function on a state: the world outside, of any type, and the list of
-- what was done. An exception is an error value, and what was done before it stays done. The database functions,
-- urlopen, HMAC-SHA256, SHA-256 and the patterns that a JSON schema brings (re.search) are parameters; so are the
-- resolution of paths by the system, the home directory (Path.expanduser), and how Python prints a list or a
-- dictionary. The patterns that the code itself writes are read character by character. A loop `while True` is
-- modelled for a number of rounds. The visits of validate_json_schema follow references, and nest up to a limit,
-- as the interpreter's do; a limit that covers the rules of the schema is enough for every value. Every other loop
-- is structural recursion. json.loads raises ValueError for an integer with more digits, and RecursionError for
-- deeper nesting, than the interpreter allows; both limits are parameters of the adapter and the dispatcher, and a
-- text within them is read by Json.Parse alone, as the checkers' texts are taken to be. The rows that other
-- transactions have locked are a parameter of claim_outbox. A set is a list, in the order in which its elements are
-- added; where the code goes through a set of paths, which of several errors comes first is left to that order.
--
-- Not modelled: the C# services and the SQL migrations but for the outbox's functions, psycopg's connection
-- (db.py), the library's HTTP server, and the harness of the checkers, which drives Docker, HTTP and psql. Of the
-- pure functions of the checkers, week 2's _redact, _raw_compose_findings, parse_failpoint_acks,
-- validate_read_only_query and issue_token, and week 4's _database_principals, _provider_callback_base,
-- _compose_contract_findings and fixture are left out, and weeks 1 and 3, which repeat much of them. Digits and
-- letters are those of ASCII where Python also takes other scripts'; a float is the decimal that its literal
-- writes.
mod Common
pub mod Json
pub mod Builtins
pub mod App
pub mod Findings
pub mod Outbox
pub mod Week2
pub mod Week4
