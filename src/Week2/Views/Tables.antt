-- ===== src/Week2/Views/Tables.antt =====
-- The views of the `autocheck` schema and the columns of each.
use db_first_practice.Common.{List, [], ◌∷◌, Text, txt}

abbrev pub autocheck_views : List Text
autocheck_views =
    txt "flow_versions"
    ∷ txt "processes"
    ∷ txt "steps"
    ∷ txt "jobs"
    ∷ txt "attempts"
    ∷ txt "signals"
    ∷ txt "workflow_events"
    ∷ txt "action_dispatches"
    ∷ txt "action_definitions"
    ∷ []

abbrev pub autocheck_view_schemas : List (Text × List (Text × Text))
autocheck_view_schemas =
    (
      txt "action_definitions",
      (txt "module", txt "text")
          ∷ (txt "action", txt "text")
          ∷ (txt "version", txt "integer")
          ∷ (txt "http_method", txt "text")
          ∷ (txt "target_schema", txt "text")
          ∷ (txt "target_function", txt "text")
          ∷ (txt "outcomes", txt "jsonb")
          ∷ (txt "enabled", txt "boolean")
          ∷ (txt "is_default", txt "boolean")
          ∷ [],
    )
    ∷ (
      txt "action_dispatches",
      (txt "correlation_id", txt "uuid")
          ∷ (txt "request_id", txt "text")
          ∷ (txt "module", txt "text")
          ∷ (txt "action", txt "text")
          ∷ (txt "version", txt "integer")
          ∷ (txt "principal", txt "text")
          ∷ (txt "payload_hash", txt "text")
          ∷ (txt "status", txt "text")
          ∷ (txt "outcome", txt "text")
          ∷ (txt "occurred_at", txt "timestamp with time zone")
          ∷ [],
    )
    ∷ (
      txt "flow_versions",
      (txt "flow_name", txt "text")
          ∷ (txt "flow_version", txt "integer")
          ∷ (txt "status", txt "text")
          ∷ (txt "is_active", txt "boolean")
          ∷ (txt "published_at", txt "timestamp with time zone")
          ∷ [],
    )
    ∷ (
      txt "processes",
      (txt "process_id", txt "uuid")
          ∷ (txt "business_key", txt "text")
          ∷ (txt "flow_name", txt "text")
          ∷ (txt "flow_version", txt "integer")
          ∷ (txt "state", txt "text")
          ∷ (txt "current_step_key", txt "text")
          ∷ (txt "created_at", txt "timestamp with time zone")
          ∷ (txt "updated_at", txt "timestamp with time zone")
          ∷ [],
    )
    ∷ (
      txt "steps",
      (txt "step_instance_id", txt "uuid")
          ∷ (txt "process_id", txt "uuid")
          ∷ (txt "step_key", txt "text")
          ∷ (txt "step_type", txt "text")
          ∷ (txt "state", txt "text")
          ∷ (txt "outcome", txt "text")
          ∷ (txt "entered_at", txt "timestamp with time zone")
          ∷ (txt "completed_at", txt "timestamp with time zone")
          ∷ [],
    )
    ∷ (
      txt "jobs",
      (txt "job_id", txt "uuid")
          ∷ (txt "process_id", txt "uuid")
          ∷ (txt "step_instance_id", txt "uuid")
          ∷ (txt "execution_id", txt "uuid")
          ∷ (txt "state", txt "text")
          ∷ (txt "lease_owner", txt "text")
          ∷ (txt "lease_version", txt "bigint")
          ∷ (txt "lease_until", txt "timestamp with time zone")
          ∷ (txt "attempt_count", txt "integer")
          ∷ (txt "next_attempt_at", txt "timestamp with time zone")
          ∷ [],
    )
    ∷ (
      txt "attempts",
      (txt "attempt_id", txt "uuid")
          ∷ (txt "job_id", txt "uuid")
          ∷ (txt "execution_id", txt "uuid")
          ∷ (txt "lease_version", txt "bigint")
          ∷ (txt "attempt_number", txt "integer")
          ∷ (txt "status", txt "text")
          ∷ (txt "outcome", txt "text")
          ∷ (txt "error_code", txt "text")
          ∷ (txt "started_at", txt "timestamp with time zone")
          ∷ (txt "finished_at", txt "timestamp with time zone")
          ∷ [],
    )
    ∷ (
      txt "signals",
      (txt "message_id", txt "text")
          ∷ (txt "process_id", txt "uuid")
          ∷ (txt "signal_type", txt "text")
          ∷ (txt "body_hash", txt "text")
          ∷ (txt "status", txt "text")
          ∷ (txt "received_at", txt "timestamp with time zone")
          ∷ [],
    )
    ∷ (
      txt "workflow_events",
      (txt "event_id", txt "uuid")
          ∷ (txt "process_id", txt "uuid")
          ∷ (txt "step_instance_id", txt "uuid")
          ∷ (txt "event_type", txt "text")
          ∷ (txt "occurred_at", txt "timestamp with time zone")
          ∷ [],
    )
    ∷ []
