-- ===== src/Week4/Compose/Tables.antt =====
-- The services of the stack, and which of them receive each variable of the environment.
use db_first_practice.Common.{List, [], ◌∷◌, ◌++◌, Text, txt}

abbrev pub required_services : List Text
required_services =
    txt "gateway"
    ∷ txt "api"
    ∷ txt "cli"
    ∷ txt "postgres"
    ∷ txt "worker-a"
    ∷ txt "worker-b"
    ∷ txt "outbox-dispatcher"
    ∷ txt "outbox-dispatcher-b"
    ∷ txt "receipt-adapter"
    ∷ txt "inbox-reconciler"
    ∷ txt "inbox-reconciler-b"
    ∷ txt "provider-simulator"
    ∷ []

abbrev pub python_services : List Text
python_services =
    txt "outbox-dispatcher"
    ∷ txt "outbox-dispatcher-b"
    ∷ txt "receipt-adapter"
    ∷ txt "inbox-reconciler"
    ∷ txt "inbox-reconciler-b"
    ∷ []

abbrev pub csharp_services : List Text
csharp_services = txt "gateway" ∷ txt "api" ∷ txt "worker-a" ∷ txt "worker-b" ∷ []

abbrev pub required_env_recipients : List (Text × List Text)
required_env_recipients =
    (txt "COURSE_GATEWAY_PORT", txt "gateway" ∷ [])
    ∷ (txt "COURSE_TEST_PROFILE", csharp_services ++ txt "cli" ∷ [] ++ python_services)
    ∷ (txt "COURSE_JWT_ISSUER", csharp_services ++ txt "cli" ∷ [])
    ∷ (txt "COURSE_JWT_AUDIENCE", csharp_services ++ txt "cli" ∷ [])
    ∷ (txt "COURSE_JWT_SIGNING_KEY", csharp_services ++ txt "cli" ∷ [])
    ∷ (txt "COURSE_POSTGRES_PASSWORD", txt "postgres" ∷ [])
    ∷ (txt "COURSE_MIGRATOR_PASSWORD", txt "postgres" ∷ txt "cli" ∷ [])
    ∷ (txt "COURSE_PUBLISHER_PASSWORD", txt "postgres" ∷ txt "cli" ∷ [])
    ∷ (txt "COURSE_RUNTIME_PASSWORD", txt "postgres" ∷ txt "api" ∷ [])
    ∷ (txt "COURSE_WORKER_PASSWORD", txt "postgres" ∷ txt "worker-a" ∷ txt "worker-b" ∷ [])
    ∷ (
      txt "COURSE_OUTBOX_PASSWORD",
      txt "postgres" ∷ txt "outbox-dispatcher" ∷ txt "outbox-dispatcher-b" ∷ [],
    )
    ∷ (
      txt "COURSE_INBOX_PASSWORD",
      txt "postgres" ∷ txt "inbox-reconciler" ∷ txt "inbox-reconciler-b" ∷ [],
    )
    ∷ (txt "COURSE_AUTOCHECK_PASSWORD", txt "postgres" ∷ [])
    ∷ (txt "PROVIDER_URL", txt "outbox-dispatcher" ∷ txt "outbox-dispatcher-b" ∷ [])
    ∷ (txt "OUTBOX_OWNER", txt "outbox-dispatcher" ∷ [])
    ∷ (txt "OUTBOX_OWNER_B", txt "outbox-dispatcher-b" ∷ [])
    ∷ (
      txt "COURSE_FAILPOINT",
      txt "api"
          ∷ txt "worker-a"
          ∷ txt "worker-b"
          ∷ txt "outbox-dispatcher"
          ∷ txt "outbox-dispatcher-b"
          ∷ txt "inbox-reconciler"
          ∷ txt "inbox-reconciler-b"
          ∷ [],
    )
    ∷ (txt "COURSE_PROVIDER_TIMEOUT_MS", txt "outbox-dispatcher" ∷ txt "outbox-dispatcher-b" ∷ [])
    ∷ (
      txt "COURSE_OUTBOX_MAX_ATTEMPTS",
      txt "postgres" ∷ txt "outbox-dispatcher" ∷ txt "outbox-dispatcher-b" ∷ [],
    )
    ∷ (txt "COURSE_OUTBOX_BACKOFF_BASE_MS", txt "postgres" ∷ [])
    ∷ (txt "COURSE_OUTBOX_BACKOFF_MAX_MS", txt "postgres" ∷ [])
    ∷ (txt "COURSE_OUTBOX_JITTER_MAX_MS", txt "postgres" ∷ [])
    ∷ (
      txt "COURSE_OUTBOX_LEASE_MS",
      txt "postgres" ∷ txt "outbox-dispatcher" ∷ txt "outbox-dispatcher-b" ∷ [],
    )
    ∷ (txt "COURSE_OUTBOX_POLL_MS", txt "outbox-dispatcher" ∷ txt "outbox-dispatcher-b" ∷ [])
    ∷ (txt "COURSE_INBOX_POLL_MS", txt "inbox-reconciler" ∷ txt "inbox-reconciler-b" ∷ [])
    ∷ (txt "COURSE_JOB_LEASE_MS", txt "postgres" ∷ txt "worker-a" ∷ txt "worker-b" ∷ [])
    ∷ (txt "COURSE_WORKER_POLL_MS", txt "worker-a" ∷ txt "worker-b" ∷ [])
    ∷ (txt "PROVIDER_CALLBACK_CAPABILITY", txt "receipt-adapter" ∷ txt "provider-simulator" ∷ [])
    ∷ (txt "PROVIDER_CALLBACK_TOKEN", txt "receipt-adapter" ∷ [])
    ∷ (txt "PROVIDER_HMAC_SECRET", txt "receipt-adapter" ∷ txt "api" ∷ [])
    ∷ (txt "RECEIPT_API_URL", txt "receipt-adapter" ∷ [])
    ∷ (txt "PROVIDER_AUDIT_TOKEN", txt "provider-simulator" ∷ [])
    ∷ []
