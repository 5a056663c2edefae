-- ===== src/Week2/Fixture/Tests.antt =====
-- A directory with a fixture.
use db_first_practice.Common.{
  ◌≡◌, refl, true, Option, some, [], ◌∷◌, ◌++◌, Text, txt, text_eq, Bool, if◌then◌else◌,
}
use mathlib.Core.List
use db_first_practice.Common.Assoc.{lookup}
use db_first_practice.Common.Results.{ok, err}
use db_first_practice.Json.{Value, obj, Fields, end, get, keys_are, value_eq}
use db_first_practice.Json.Parse.{loads}
use db_first_practice.Json.Print.{dumps_sorted, text_le}
use db_first_practice.Json.Utf8.{Bytes, encode, decode}
use db_first_practice.Builtins.Find.{split_all, after_last}
use db_first_practice.Findings.{str_of}
use db_first_practice.Week2.Fixture.Digest.{
  refused, wrong_file_set, Directory, insert_file, sort_files, without, read_metadata,
  canonical_metadata, hashed_contents, hashed_bytes, canonical_fixture_digest,
}
use db_first_practice.Week2.Fixture.Load.{
  published_fixture_digest, object_with, check_object, check_objects, has_repeat, check_paths,
  fixture_paths, listed_files, is_unsafe_path, check_files, is_digest, is_identifier,
  check_identifiers, check_metadata, check_references, check_digest, load_fixture,
}
use db_first_practice.Week2.Fixture.Order.{directory, canonical_fixture_digest-Perm}
use db_first_practice.Week2.Fixture.Published.{IsPublished, load_fixture-IsPublished}

abbrev repr : Value → Text
repr v = txt "{}"

abbrev sha256_hex : Bytes → Text
sha256_hex bytes = published_fixture_digest

abbrev description : Text
description =
    txt
      "{\"action\":\"x\",\"actionVersion\":1,\"businessKeys\":{\"signal\":\"x\",\"manual\":\"x\",\"retry\":\"x\",\"err"
    ++ (txt
          "or\":\"x\",\"unknown\":\"x\",\"invalid\":\"x\",\"v2\":\"x\"},\"businessValues\":{\"signal\":\"x\",\"manual\":\"x\","
        ++ (txt
              "\"retry\":\"x\",\"error\":\"x\",\"unknown\":\"x\",\"invalid\":\"x\",\"changed\":\"x\",\"marker\":\"x\",\"signalPayl"
            ++ (txt
                  "oad\":\"x\",\"result\":\"x\"},\"contractVersion\":\"course-1\",\"digest\":\"fdae621f8c88b02e4ee50ba3cec2"
                ++ (txt
                      "658470a177da68e5b438349a380d100071d4\",\"effectTable\":\"x\",\"errorCodes\":{\"retry\":\"x\",\"error\":"
                    ++ (txt
                          "\"x\"},\"files\":{\"migration\":\"a\",\"actionManifest\":\"b\",\"disabledActionManifest\":\"c\",\"flowV1Jso"
                        ++ (txt
                              "n\":\"d\",\"flowV2Json\":\"e\",\"flowV1Yaml\":\"f\",\"flowV2Yaml\":\"g\",\"invalidMaps\":{\"schema\":[\"h\"],\"s"
                            ++ (txt
                                  "emantic\":[\"i\",\"j\"]},\"processData\":{\"signal\":\"k\",\"manual\":\"l\",\"retry\":\"m\",\"error\":\"n\",\"unkn"
                                ++ (txt
                                      "own\":\"o\",\"invalid\":\"p\",\"changed\":\"q\"},\"signalData\":\"r\",\"resultData\":\"s\"},\"flowName\":\"x\",\"g"
                                    ++ (txt
                                          "enerationPhase\":\"post-build\",\"generatorVersion\":\"week-2.1\",\"modes\":{\"signal\":\"x\",\"manual\":"
                                        ++ (txt
                                              "\"x\",\"retry\":\"x\",\"error\":\"x\",\"unknown\":\"x\",\"invalid\":\"x\"},\"module\":\"x\",\"orderingOwner\":\"run"
                                            ++ (txt
                                                  "ner\",\"outcomes\":{\"signal\":\"x\",\"manual\":\"x\",\"received\":\"x\",\"approved\":\"x\",\"completed\":\"x\",\""
                                                ++ (txt
                                                      "unknown\":\"x\",\"abandoned\":\"x\"},\"processProperties\":{\"mode\":\"x\",\"value\":\"x\"},\"properties\":{\""
                                                    ++ (txt
                                                          "mode\":\"x\",\"value\":\"x\",\"marker\":\"x\",\"stored\":\"x\",\"revision\":\"x\",\"echo\":\"x\",\"execution\":\"x\"}"
                                                        ++ (txt
                                                            ",\"seedMode\":\"explicit-test-seed\",\"signalMessageId\":\"x\",\"signalType\":\"x\",\"steps\":{\"automati"
                                                            ++ (txt
                                                            "c\":\"x\",\"wait\":\"x\",\"manual\":\"x\",\"end\":\"x\"},\"targetFunction\":\"x\",\"targetSchema\":\"x\"}")))))))))))))))

abbrev root : Directory
root = record {
  files =
      (txt "fixture.json", description)
      ∷ (txt "a", [])
      ∷ (txt "b", [])
      ∷ (txt "c", [])
      ∷ (txt "d", [])
      ∷ (txt "e", [])
      ∷ (txt "f", [])
      ∷ (txt "g", [])
      ∷ (txt "h", [])
      ∷ (txt "i", [])
      ∷ (txt "j", [])
      ∷ (txt "k", [])
      ∷ (txt "l", [])
      ∷ (txt "m", [])
      ∷ (txt "n", [])
      ∷ (txt "o", [])
      ∷ (txt "p", [])
      ∷ (txt "q", [])
      ∷ (txt "r", [])
      ∷ (txt "s", [])
      ∷ [];
  inside = λ path. true;
}

abbrev fields_of : Option Value → Fields
fields_of (some (obj d)) = d
fields_of v = end

abbrev fixture : Fields
fixture = fields_of (loads description)

-- The fixture is loaded.
fixture_loaded : load_fixture repr sha256_hex root ≡ ok fixture
unfolding txt text_eq lookup loads dumps_sorted encode decode get keys_are value_eq text_le
    split_all after_last str_of insert_file sort_files without read_metadata canonical_metadata
    hashed_contents hashed_bytes canonical_fixture_digest object_with check_object check_objects
    has_repeat check_paths fixture_paths listed_files is_unsafe_path check_files is_digest
    is_identifier check_identifiers check_metadata check_references check_digest load_fixture
fixture_loaded = refl

load_fixture-IsPublished_example : IsPublished repr sha256_hex root fixture
load_fixture-IsPublished_example = load_fixture-IsPublished repr sha256_hex root fixture_loaded

-- A file that the description does not name is refused.
extra_refused :
    load_fixture repr sha256_hex
      (record { files = (txt "t", []) ∷ root.files; inside = root.inside })
    ≡ err (refused wrong_file_set)
unfolding txt text_eq lookup loads decode get keys_are value_eq after_last str_of read_metadata
    object_with check_object check_objects has_repeat check_paths fixture_paths listed_files
    check_metadata check_references load_fixture
extra_refused = refl

abbrev contents_of : Text → Bytes
contents_of path = if text_eq path (txt "fixture.json") then description else path

abbrev everywhere : Text → Bool
everywhere path = true

canonical_fixture_digest-Perm_example :
    canonical_fixture_digest sha256_hex
      (directory contents_of everywhere (txt "fixture.json" ∷ txt "a.sql" ∷ []))
    ≡ canonical_fixture_digest sha256_hex
        (directory contents_of everywhere (txt "a.sql" ∷ txt "fixture.json" ∷ []))
canonical_fixture_digest-Perm_example =
    canonical_fixture_digest-Perm contents_of sha256_hex everywhere
      (List.Perm.swap (txt "a.sql") (txt "fixture.json") [])
