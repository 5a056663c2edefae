-- ===== src/Week4/Compose/Runtime.antt =====
-- `_runtime_compose_findings`: the ports of the running stack.
use db_first_practice.Common.{
  ℕ, Bool, false, not, Option, none, some, List, [], ◌∷◌, ◌++◌, Text, txt, text_eq, if◌then◌else◌,
}
use db_first_practice.Common.Assoc.{lookup}
use db_first_practice.Common.Int.{ℤ, pos}
use db_first_practice.Common.Results.{Result, ok, err, ◌>>=◌}
use db_first_practice.Json.{end, get, Value, obj, Fields, get_or_null, truthy, entries}
use db_first_practice.Findings.{Fault, key_error, Found, flag, ◌then_find◌, each}
use db_first_practice.Week4.Compose.Ports.{published_ports, target_ports, published_host_ips}
use db_first_practice.Week4.Compose.Ports.Sets.{is_only, is_only_text}

-- the ports of the services, as the URLs of the source give them
abbrev pub internal_ports : List (Text × ℕ)
internal_ports =
    (txt "api", 8080)
    ∷ (txt "worker-a", 8080)
    ∷ (txt "worker-b", 8080)
    ∷ (txt "outbox-dispatcher", 8080)
    ∷ (txt "outbox-dispatcher-b", 8080)
    ∷ (txt "receipt-adapter", 8082)
    ∷ (txt "inbox-reconciler", 8080)
    ∷ (txt "inbox-reconciler-b", 8080)
    ∷ (txt "postgres", 5432)
    ∷ (txt "provider-simulator", 8081)
    ∷ []

abbrev pub default_to : Value → Option Value → Value
default_to v none = v
default_to v (some w) = w

module _ (repr : Value → Text) where
  -- the test of `_published_host_ips`, after that of `_target_ports`
  unfoldable pub bound_to : Value → ℕ → List ℤ → Result Fault Bool
  bound_to service target targets =
      if is_only (pos target) targets
      then published_host_ips repr service >>= (λ ips. ok (is_only_text (txt "127.0.0.1") ips))
      else ok false

  -- the test of `_target_ports`, after that of `_published_ports`
  unfoldable pub mapped_to : Text → Value → ℕ → List ℤ → Result Fault Bool
  unfolding lookup
  mapped_to name service port ports =
      if is_only (pos port) ports
      then elim (lookup name internal_ports) [
        | none ↦ err key_error
        | some target ↦ target_ports service >>= bound_to service target
      ]
      else ok false

  unfoldable pub is_mapped : Text → Value → ℕ → Result Fault Bool
  is_mapped name service port = published_ports service >>= mapped_to name service port

  -- a service without a probe port
  unfoldable pub unprobed_findings : Text → Value → Found
  unprobed_findings name (obj d) =
      ok
        (flag (truthy (get_or_null (txt "ports") d)) (name ++ txt ": unexpected runtime host port"))
  unprobed_findings name v = ok []

  -- the test of one service
  unfoldable pub probe_findings : (Text → Option ℕ) → Text × Value → Found
  probe_findings probe_ports (name, service) =
      if text_eq name (txt "gateway") then ok [] else elim (probe_ports name) [
        | none ↦ unprobed_findings name service
        | some port ↦ is_mapped name service port >>= λ mapped.
            ok (flag (not mapped) (name ++ txt ": trusted probe port mapping is invalid"))
      ]

  unfoldable pub gateway_findings : Value → ℕ → Found
  gateway_findings gateway gateway_port =
      (do
        ports ← published_ports gateway
        ok (
            flag (not (is_only (pos gateway_port) ports))
              (txt "runtime gateway must publish only the selected host port")))
      then_find ((do
        targets ← target_ports gateway
        ok (
            flag (not (is_only (pos 8080) targets))
              (txt "runtime gateway must target container port 8080")))
          then_find (do
            ips ← published_host_ips repr gateway
            ok (
                flag (not (is_only_text (txt "127.0.0.1") ips))
                  (txt "runtime gateway must bind only to loopback"))))

  unfoldable pub runtime_compose_findings : Fields → ℕ → (Text → Option ℕ) → Found
  runtime_compose_findings config gateway_port probe_ports =
      elim (default_to (obj end) (get (txt "services") config)) [
        | obj services ↦
            gateway_findings (get_or_null (txt "gateway") services) gateway_port
            then_find each (probe_findings probe_ports) (entries services)
        | _ ↦ ok (txt "runtime services must be an object" ∷ [])
      ]
