-- ===== src/Week4/Columns/Tables.antt =====
-- The views of the `autocheck` schema in week 4, their columns, and the columns of each type.
use db_first_practice.Common.{List, [], ◌∷◌, Text, txt}

abbrev pub required_views : List Text
required_views =
    txt "contract_info"
    ∷ txt "action_definitions"
    ∷ txt "action_dispatches"
    ∷ txt "operations"
    ∷ txt "operation_events"
    ∷ txt "flow_versions"
    ∷ txt "processes"
    ∷ txt "steps"
    ∷ txt "jobs"
    ∷ txt "attempts"
    ∷ txt "signals"
    ∷ txt "workflow_events"
    ∷ txt "external_requests"
    ∷ txt "receipts"
    ∷ txt "outbox"
    ∷ txt "inbox"
    ∷ txt "decisions"
    ∷ []

abbrev pub required_view_columns : List (Text × List Text)
required_view_columns =
    (txt "contract_info", txt "contract_version" ∷ txt "generated_at" ∷ [])
    ∷ (
      txt "action_definitions",
      txt "module"
          ∷ txt "action"
          ∷ txt "version"
          ∷ txt "http_method"
          ∷ txt "target_schema"
          ∷ txt "target_function"
          ∷ txt "outcomes"
          ∷ txt "enabled"
          ∷ txt "is_default"
          ∷ [],
    )
    ∷ (
      txt "action_dispatches",
      txt "correlation_id"
          ∷ txt "request_id"
          ∷ txt "module"
          ∷ txt "action"
          ∷ txt "version"
          ∷ txt "principal"
          ∷ txt "payload_hash"
          ∷ txt "status"
          ∷ txt "outcome"
          ∷ txt "occurred_at"
          ∷ [],
    )
    ∷ (
      txt "operations",
      txt "operation_id"
          ∷ txt "request_id"
          ∷ txt "operation_kind"
          ∷ txt "amount"
          ∷ txt "currency"
          ∷ txt "status"
          ∷ txt "process_id"
          ∷ txt "created_at"
          ∷ txt "updated_at"
          ∷ [],
    )
    ∷ (
      txt "operation_events",
      txt "event_id"
          ∷ txt "operation_id"
          ∷ txt "event_type"
          ∷ txt "payload_hash"
          ∷ txt "occurred_at"
          ∷ [],
    )
    ∷ (
      txt "flow_versions",
      txt "flow_name"
          ∷ txt "flow_version"
          ∷ txt "status"
          ∷ txt "is_active"
          ∷ txt "published_at"
          ∷ [],
    )
    ∷ (
      txt "processes",
      txt "process_id"
          ∷ txt "business_key"
          ∷ txt "flow_name"
          ∷ txt "flow_version"
          ∷ txt "state"
          ∷ txt "current_step_key"
          ∷ txt "created_at"
          ∷ txt "updated_at"
          ∷ [],
    )
    ∷ (
      txt "steps",
      txt "step_instance_id"
          ∷ txt "process_id"
          ∷ txt "step_key"
          ∷ txt "step_type"
          ∷ txt "state"
          ∷ txt "outcome"
          ∷ txt "entered_at"
          ∷ txt "completed_at"
          ∷ [],
    )
    ∷ (
      txt "jobs",
      txt "job_id"
          ∷ txt "process_id"
          ∷ txt "step_instance_id"
          ∷ txt "execution_id"
          ∷ txt "state"
          ∷ txt "lease_owner"
          ∷ txt "lease_version"
          ∷ txt "lease_until"
          ∷ txt "attempt_count"
          ∷ txt "next_attempt_at"
          ∷ [],
    )
    ∷ (
      txt "attempts",
      txt "attempt_id"
          ∷ txt "job_id"
          ∷ txt "execution_id"
          ∷ txt "lease_version"
          ∷ txt "attempt_number"
          ∷ txt "status"
          ∷ txt "outcome"
          ∷ txt "error_code"
          ∷ txt "started_at"
          ∷ txt "finished_at"
          ∷ [],
    )
    ∷ (
      txt "signals",
      txt "message_id"
          ∷ txt "process_id"
          ∷ txt "signal_type"
          ∷ txt "body_hash"
          ∷ txt "status"
          ∷ txt "received_at"
          ∷ [],
    )
    ∷ (
      txt "workflow_events",
      txt "event_id"
          ∷ txt "process_id"
          ∷ txt "step_instance_id"
          ∷ txt "event_type"
          ∷ txt "occurred_at"
          ∷ [],
    )
    ∷ (
      txt "external_requests",
      txt "external_request_id"
          ∷ txt "operation_id"
          ∷ txt "state"
          ∷ txt "payload_hash"
          ∷ txt "created_at"
          ∷ [],
    )
    ∷ (
      txt "receipts",
      txt "message_id"
          ∷ txt "external_request_id"
          ∷ txt "message_version"
          ∷ txt "outcome"
          ∷ txt "signature_valid"
          ∷ txt "body_hash"
          ∷ txt "received_at"
          ∷ txt "applied_at"
          ∷ [],
    )
    ∷ (
      txt "outbox",
      txt "outbox_id"
          ∷ txt "external_request_id"
          ∷ txt "state"
          ∷ txt "attempt_count"
          ∷ txt "lease_owner"
          ∷ txt "lease_version"
          ∷ txt "lease_until"
          ∷ txt "next_attempt_at"
          ∷ txt "last_error_code"
          ∷ txt "created_at"
          ∷ txt "delivered_at"
          ∷ txt "dead_at"
          ∷ [],
    )
    ∷ (
      txt "inbox",
      txt "message_id" ∷ txt "body_hash" ∷ txt "state" ∷ txt "received_at" ∷ txt "applied_at" ∷ [],
    )
    ∷ (
      txt "decisions",
      txt "decision_id"
          ∷ txt "process_id"
          ∷ txt "step_instance_id"
          ∷ txt "source"
          ∷ txt "principal"
          ∷ txt "reason_hash"
          ∷ txt "outcome"
          ∷ txt "rule_version"
          ∷ txt "created_at"
          ∷ [],
    )
    ∷ []

abbrev pub uuid_columns : List Text
uuid_columns =
    txt "attempt_id"
    ∷ txt "correlation_id"
    ∷ txt "decision_id"
    ∷ txt "event_id"
    ∷ txt "execution_id"
    ∷ txt "job_id"
    ∷ txt "operation_id"
    ∷ txt "outbox_id"
    ∷ txt "process_id"
    ∷ txt "step_instance_id"
    ∷ []

abbrev pub timestamptz_columns : List Text
timestamptz_columns =
    txt "applied_at"
    ∷ txt "completed_at"
    ∷ txt "created_at"
    ∷ txt "dead_at"
    ∷ txt "delivered_at"
    ∷ txt "entered_at"
    ∷ txt "finished_at"
    ∷ txt "generated_at"
    ∷ txt "lease_until"
    ∷ txt "next_attempt_at"
    ∷ txt "occurred_at"
    ∷ txt "published_at"
    ∷ txt "received_at"
    ∷ txt "started_at"
    ∷ txt "updated_at"
    ∷ []

abbrev pub integer_columns : List Text
integer_columns =
    txt "attempt_count"
    ∷ txt "attempt_number"
    ∷ txt "flow_version"
    ∷ txt "message_version"
    ∷ txt "version"
    ∷ []

abbrev pub bigint_columns : List Text
bigint_columns = txt "lease_version" ∷ []

abbrev pub boolean_columns : List Text
boolean_columns = txt "enabled" ∷ txt "is_active" ∷ txt "is_default" ∷ txt "signature_valid" ∷ []

abbrev pub jsonb_columns : List Text
jsonb_columns = txt "outcomes" ∷ []

abbrev pub numeric_columns : List Text
numeric_columns = txt "amount" ∷ []
