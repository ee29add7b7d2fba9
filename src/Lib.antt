-- ===== src/Lib.antt =====
-- Quellgeist: from an incident's signals to a reviewed, published diagnosis.
--
-- The program has an agent that proposes a diagnosis with cited evidence, checks that guard it, an
-- orchestrator that runs one investigation and its review, a store, and a web service around them.
--
-- Base, with Base/Tests, Base/Lists, Base/Int and Base/Text, holds the helpers that all parts share;
-- Effects holds Python's exceptions as values, and Signals the decoded JSON values and rows.
--
-- * Agent/Schema, Agent/Citations, Agent/Actions, Agent/Providers, Agent/Verifier, Agent/Timing and
--   Agent/Loop are src/quellgeist/agent/schema.py, citations.py, actions.py, providers.py (with
--   orchestrator/hint.py), verifier.py, timing_verifier.py and loop.py. The loop calls a provider,
--   reads an action from the reply, and runs a tool or ends with a diagnosis.
-- * Ingest/Normalize with Ingest/Metrics, Ingest/Sources and Ingest/Deploys are
--   src/quellgeist/ingest/normalize.py and sources.py: what real-world logs and deploy logs are read
--   as. Ingest/Lines has the string methods they use, Ingest/Runtime what they take from Python.
-- * Servers/Filters and Servers/Tools are src/quellgeist/servers/filters.py, the read-only queries, and
--   tools.py, the evidence tools of the command line over the files that the environment names.
-- * Store/Models and Store/Dao are src/quellgeist/store/models.py and dao.py over Store/World, the
--   state of all five tables, the snapshots and the publications. An operation is a function from
--   a world to a result and the next world, and each transaction may fail.
-- * Orchestrator/Investigate, Orchestrator/Review and Orchestrator/Resolution are
--   src/quellgeist/orchestrator/investigate.py, review.py (with notify/__init__.py) and resolution.py.
--   Orchestrator/ToolsFactory is tools_factory.py: the tools and the signals of one snapshot.
-- * Service/Ingress, Service/Pool and Service/Requests are the blocking parts of
--   src/quellgeist/service/app.py, queue.py, security.py, snapshots.py and config.py.
--   Service/Endpoints and Service/Operator are the endpoints of app.py: the signed webhook, which
--   ingests and enqueues, and the operator's four, which read, review and check.
-- * Output/Postmortem is src/quellgeist/output/postmortem.py: a diagnosis as Markdown and as HTML.
--   Output/Files is the writing of both (with notify/html.py), Output/Slack notify/slack.py: the
--   message that is posted.
-- * Evals/Judge is evals/judge.py: a diagnosis against the gold evidence of a scenario.
--   Evals/Audits is evals/matrix/audits.py: what a transcript's tool calls did not take from it.
-- * A module below one of these holds theorems about it; Tests holds concrete inputs at which the
--   theorems apply.
--
-- Function names are the source's, without a leading underscore. The parts of a long function have
-- names of their own and are composed in its order: `run_loop` is `start`, `turn` and `exhausted`
-- under `run_steps`; `investigate` is `conclude_run` and `fail_run` under `guard_run`.
--
-- Bounds: `run_steps` recurses on the steps that are left of `max_steps`, and `retry` on the attempts
-- that are left of `max_retries`, which are the source's own loops, so neither has other fuel.
--
-- Parameters: the JSON and pydantic codecs, litellm, `fromisoformat` and the other conversions of
-- times, numbers and cases, the regular expressions' matches in a log line, the hash, the environment
-- and the files, the prompts' texts, and the outcomes of the two publication channels. An investigation
-- takes the tools and the signals of a snapshot as a parameter, which Orchestrator/ToolsFactory fills.
--
-- Not modelled: latencies, sleeping and pacing, logging and warnings, threads and locks (a request
-- is handled as a whole), HTTP routing, the review's own files and messages (it takes their
-- outcomes as parameters, as the operator's page takes its HTML), the MCP servers, the reader of
-- metrics sources, whose values may be NaN, the command line, and the evaluation harness apart from
-- its judge and one audit. `upper` in the filters is that of ASCII; floats in JSON values are exact
-- dyadic numbers, without NaN and the infinities, but a confidence may be any of them; a set is a
-- list; a sort key that is a list counts as incomparable; a time stamp with a year before 1000 is
-- refused; a tool's text argument of another type is refused, where the code would compare it as it
-- is; an element of a JSON array that is no object is refused at once, and not where the code looks
-- into it; points that are no list are refused, where the code also cuts a text; a directory in
-- place of a deploy log is not considered; some error texts are abbreviated.
mod Base
mod Effects
mod Signals
pub mod Agent
pub mod Ingest
pub mod Servers
pub mod Store
pub mod Orchestrator
pub mod Output
pub mod Evals
pub mod Service
mod Tests
