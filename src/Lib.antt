-- ===== src/Lib.antt =====
-- A model of the cloud commissioning service (cloud-api/app) and of its edge agent
-- (edge-agent/iot_cx_agent), with theorems.
--
-- The program: edge gateways poll a FastAPI service for jobs, execute them against BACnet devices
-- and report back; operators read and write points through the service, under site scopes; a
-- gateway that an operator has admitted keeps a web-socket tunnel open.
--
-- Files:
-- - Prelude, Dict, Json: shared tests and list lemmas; dictionaries in insertion order as
--   association lists, with purge and grouping; JSON values.
-- - Cloud/Db: the rows of cloud-api/app/models.py that the handlers read and change. A table is a
--   list of rows. Cloud/Http: how a handler ends, by a value or by an HTTPException.
-- - Cloud/Access: cloud-api/app/access.py, and the role checks of cloud-api/app/auth.py.
-- - Cloud/Status: `_effective_status` of cloud-api/app/main.py.
-- - Cloud/Allowlist: `TunnelAllowlist` of cloud-api/app/tunnel.py; each method is one step, since
--   it holds the lock throughout.
-- - Cloud/Batches: `_refresh_write_batch_status`; Cloud/Jobs: `_claim_next_job_once`, as one
--   transaction, and in Jobs/Race the two statements of it that may interleave between workers;
--   Cloud/Writes: `ui_write_saved_points` and `ui_approve_saved_point_write`, with the job queue
--   of Cloud/Jobs as what an approval fills. All are of cloud-api/app/main.py.
-- - Cloud/Tree, Cloud/Readings, Cloud/Reconcile, Cloud/Results: `receive_job_result` of
--   cloud-api/app/main.py, by the parts that extend the saved devices and points, that store
--   values, that settle the commands of a write job, and the handler that joins them on the
--   tables of Cloud/Db. Cloud/Db/Owned has the lemmas on rows that belong to gateways.
-- - Cloud/Creation: `create_job` of cloud-api/app/main.py, with the checks of its payload in
--   cloud-api/app/schemas.py.
-- - Cloud/Tunnel: `GatewayTunnel` and `TunnelManager` of cloud-api/app/tunnel.py; tunnels and
--   futures are shared objects, so they are numbers in a store.
-- - Cloud/Console: `TunnelSessionManager`, `TunnelAuthGate` and `TunnelMetrics` of
--   cloud-api/app/tunnel.py. Cloud/Notifier: `CommandWaitNotifier` of cloud-api/app/main.py.
-- - Cloud/Poll: `claim_next_job` of cloud-api/app/main.py, on Cloud/Jobs and Cloud/Notifier; the loop
--   runs over a list of turns, and as many quiet ones as the poll may wait seconds are enough.
-- - Cloud/Alerts: `admin_evaluate_alerts` of cloud-api/app/main.py; the table of alert states is a
--   dictionary, since a gateway and an alert type are unique in it.
-- - Cloud/Updates: `ui_request_gateway_updates`, `admin_claim_gateway_update` and
--   `admin_complete_gateway_update` of cloud-api/app/main.py.
-- - Cloud/Lifecycle: the opening, closing and expiry of tunnels in cloud-api/app/main.py, on
--   Cloud/Allowlist, Cloud/Console and Cloud/Tunnel; expiry tasks are numbers in a store.
-- - Cloud/TrendSamples: `edge_upload_trend_samples`; Cloud/Retirement: `ui_bulk_remove_points` and
--   `edge_list_trend_configs`, all of cloud-api/app/main.py.
-- - Cloud/Mapping: `ui_apply_mapping_template` of cloud-api/app/main.py, and in Mapping/Exchange the
--   creation, the export and the import of mapping templates; Python's operations on texts and its
--   csv module are arguments.
-- - Edge/Sampling: the sampling of local trend groups, edge-agent/iot_cx_agent/trends.py; what the
--   BACnet runtime answers, question after question, is a parameter.
-- - Edge/Queue: the backlog of trend samples, and Edge/State: agent state, heartbeats,
--   local jobs and traffic counters, edge-agent/iot_cx_agent/db.py. Edge/Outbox: the delivery of
--   local trend samples, edge-agent/iot_cx_agent/trends.py.
--
-- Conventions: times are whole numbers and an argument of the step that reads the clock; fresh
-- ids (uuid4, primary keys) are arguments; texts are compared as the database compares them. The
-- normal form of a UUID text, which Python's uuid module gives, is a function argument. Loops
-- run over lists; only `deliver` of Edge/Outbox, which halves its batch, takes fuel, for which the
-- length of the batch is enough.
--
-- Not modelled: HTML pages, configuration, authentication of tokens, migrations, the network.
pub mod Prelude
pub mod Dict
pub mod Json
pub mod Cloud
pub mod Edge
