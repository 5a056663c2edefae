-- ===== src/Week2/Fixture/Tables.antt =====
-- The keys that `fixture.json` and each of its objects have.
use db_first_practice.Common.{List, [], ◌∷◌, Text, txt}

abbrev pub fixture_fields : List Text
fixture_fields =
    txt "action"
    ∷ txt "actionVersion"
    ∷ txt "businessKeys"
    ∷ txt "businessValues"
    ∷ txt "contractVersion"
    ∷ txt "digest"
    ∷ txt "effectTable"
    ∷ txt "errorCodes"
    ∷ txt "files"
    ∷ txt "flowName"
    ∷ txt "generationPhase"
    ∷ txt "generatorVersion"
    ∷ txt "modes"
    ∷ txt "module"
    ∷ txt "orderingOwner"
    ∷ txt "outcomes"
    ∷ txt "processProperties"
    ∷ txt "properties"
    ∷ txt "seedMode"
    ∷ txt "signalMessageId"
    ∷ txt "signalType"
    ∷ txt "steps"
    ∷ txt "targetFunction"
    ∷ txt "targetSchema"
    ∷ []

abbrev pub fixture_object_fields : List (Text × List Text)
fixture_object_fields =
    (
      txt "businessKeys",
      txt "signal"
          ∷ txt "manual"
          ∷ txt "retry"
          ∷ txt "error"
          ∷ txt "unknown"
          ∷ txt "invalid"
          ∷ txt "v2"
          ∷ [],
    )
    ∷ (
      txt "businessValues",
      txt "signal"
          ∷ txt "manual"
          ∷ txt "retry"
          ∷ txt "error"
          ∷ txt "unknown"
          ∷ txt "invalid"
          ∷ txt "changed"
          ∷ txt "marker"
          ∷ txt "signalPayload"
          ∷ txt "result"
          ∷ [],
    )
    ∷ (txt "errorCodes", txt "retry" ∷ txt "error" ∷ [])
    ∷ (
      txt "modes",
      txt "signal" ∷ txt "manual" ∷ txt "retry" ∷ txt "error" ∷ txt "unknown" ∷ txt "invalid" ∷ [],
    )
    ∷ (
      txt "outcomes",
      txt "signal"
          ∷ txt "manual"
          ∷ txt "received"
          ∷ txt "approved"
          ∷ txt "completed"
          ∷ txt "unknown"
          ∷ txt "abandoned"
          ∷ [],
    )
    ∷ (txt "processProperties", txt "mode" ∷ txt "value" ∷ [])
    ∷ (
      txt "properties",
      txt "mode"
          ∷ txt "value"
          ∷ txt "marker"
          ∷ txt "stored"
          ∷ txt "revision"
          ∷ txt "echo"
          ∷ txt "execution"
          ∷ [],
    )
    ∷ (txt "steps", txt "automatic" ∷ txt "wait" ∷ txt "manual" ∷ txt "end" ∷ [])
    ∷ []

abbrev pub fixture_file_fields : List Text
fixture_file_fields =
    txt "migration"
    ∷ txt "actionManifest"
    ∷ txt "disabledActionManifest"
    ∷ txt "flowV1Json"
    ∷ txt "flowV2Json"
    ∷ txt "flowV1Yaml"
    ∷ txt "flowV2Yaml"
    ∷ txt "invalidMaps"
    ∷ txt "processData"
    ∷ txt "signalData"
    ∷ txt "resultData"
    ∷ []

abbrev pub process_data_fields : List Text
process_data_fields =
    txt "signal"
    ∷ txt "manual"
    ∷ txt "retry"
    ∷ txt "error"
    ∷ txt "unknown"
    ∷ txt "invalid"
    ∷ txt "changed"
    ∷ []
