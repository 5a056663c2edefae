-- ===== src/Week2/Fixture/Load.antt =====
-- `load_fixture` of week 2: the checks of a fixture's description and of the files that it names.
use db_first_practice.Common.{
  ℕ, Bool, true, false, not, ◌&&◌, ◌||◌, List, [], ◌∷◌, ◌++◌, map, ◌==◌, leb, length, if◌then◌else◌,
  Text, txt, text_eq, is_empty, mem_text, all, any,
}
use db_first_practice.Common.Int.{pos}
use db_first_practice.Common.Assoc.{lookup}
use db_first_practice.Common.Results.{Result, ok, err, ◌>>=◌, ◌>>◌, raise_if, or_raise}
use db_first_practice.Json.{
  Value, int, str, arr, obj, Fields, get_or_null, keys_are, str_is, value_eq, elements, entries,
}
use db_first_practice.Json.Utf8.{Bytes}
use db_first_practice.Builtins.Find.{split_all, after_last}
use db_first_practice.Findings.{type_error, str_of}
use db_first_practice.Week2.Compose.{is_hex_digit, is_digit}
use db_first_practice.Week2.Fixture.Tables.{
  fixture_fields, fixture_object_fields, fixture_file_fields, process_data_fields,
}
use db_first_practice.Week2.Fixture.Digest.{
  FixtureError, unreadable, wrong_fields, wrong_contract, wrong_generator, wrong_phase, wrong_seed,
  wrong_files, wrong_invalid_maps, wrong_process_data, wrong_file_set, wrong_digest_syntax,
  wrong_digest, wrong_object, empty_text, wrong_paths, wrong_path, unsafe_path, missing_path,
  wrong_identifier, LoadError, refused, raised, Directory, read_metadata, canonical_fixture_digest,
}

abbrev pub published_fixture_digest : Text
published_fixture_digest = txt "fdae621f8c88b02e4ee50ba3cec2658470a177da68e5b438349a380d100071d4"

abbrev pub published_fixture_generator : Text
published_fixture_generator = txt "week-2.1"

-- `if test: raise FixtureError`
abbrev pub refuse_if : Bool → FixtureError → Result LoadError (Unit {0})
refuse_if test e = raise_if test (refused e)

-- a text that is not empty
abbrev pub is_full : Value → Bool
is_full (str s) = not (is_empty s)
is_full v = false

-- a dictionary with these keys, or the error
unfoldable pub object_with : List Text → FixtureError → Value → Result LoadError Fields
object_with keys e (obj d) = refuse_if (not (keys_are keys d)) e >> ok d
object_with keys e v = err (refused e)

unfoldable pub check_object : Fields → Text × List Text → Result LoadError (Unit {0})
check_object value (name, keys) = do
  child ← object_with keys (wrong_object name) (get_or_null name value)
  refuse_if (any (λ (k, v). not (is_full v)) (entries child)) (empty_text name)

unfoldable pub check_objects : Fields → List (Text × List Text) → Result LoadError (Unit {0})
check_objects value [] = ok tt
check_objects value (entry ∷ later) = check_object value entry >> check_objects value later

-- what a set cannot hold
abbrev pub is_unhashable : Value → Bool
is_unhashable (arr vs) = true
is_unhashable (obj d) = true
is_unhashable v = false

unfoldable pub has_repeat : List Value → Bool
has_repeat [] = false
has_repeat (v ∷ vs) = any (value_eq v) vs || has_repeat vs

-- a list of different paths, none of them empty
unfoldable pub check_paths : Text → Value → Result LoadError (Unit {0})
check_paths category (arr vs) = do
  refuse_if (elim (elements vs) [ [] ↦ true | _ ∷ _ ↦ false ]) (wrong_paths category)
  raise_if (any is_unhashable (elements vs)) (raised type_error)
  refuse_if (has_repeat (elements vs)) (wrong_paths category)
  refuse_if (not (all is_full (elements vs))) (wrong_path category)
check_paths category v = err (refused (wrong_paths category))

-- the texts of a list, and of the values of a dictionary
abbrev pub texts_of : (Value → Text) → Value → List Text
texts_of repr (arr vs) = map (str_of repr) (elements vs)
texts_of repr v = []

abbrev pub plain_file_fields : List Text
plain_file_fields =
    txt "migration"
    ∷ txt "actionManifest"
    ∷ txt "disabledActionManifest"
    ∷ txt "flowV1Json"
    ∷ txt "flowV2Json"
    ∷ txt "flowV1Yaml"
    ∷ txt "flowV2Yaml"
    ∷ txt "signalData"
    ∷ txt "resultData"
    ∷ []

-- the paths that the description names, after `files`, `invalidMaps` and `processData` are checked
unfoldable pub fixture_paths : (Value → Text) → Fields → Fields → Fields → List Text
fixture_paths repr files invalid process_data =
    map (λ name. str_of repr (get_or_null name files)) plain_file_fields
    ++ (texts_of repr (get_or_null (txt "schema") invalid)
        ++ (texts_of repr (get_or_null (txt "semantic") invalid)
            ++ map (λ (k, v). str_of repr v) (entries process_data)))

-- the last part of a path
abbrev pub is_description : Text → Bool
is_description path = text_eq (after_last b'/' path) (txt "fixture.json")

unfoldable pub listed_files : List (Text × Bytes) → List Text
listed_files [] = []
listed_files ((path, contents) ∷ files) =
    let rest = listed_files files in if is_description path then rest else path ∷ rest

abbrev pub same_set : List Text → List Text → Bool
same_set ps qs = all (λ p. mem_text p qs) ps && all (λ q. mem_text q ps) qs

unfoldable pub is_unsafe_path : Text → Bool
is_unsafe_path [] = false
is_unsafe_path (c ∷ s) = c == b'/' || mem_text (txt "..") (split_all b'/' (c ∷ s))

-- each path is relative, stays below the root, and is there
unfoldable pub check_files : Directory → List Text → Result LoadError (Unit {0})
check_files root [] = ok tt
check_files root (path ∷ paths) = do
  refuse_if (is_unsafe_path path) (unsafe_path path)
  refuse_if (not (mem_text path (listed_files root.files) && root.inside path)) (missing_path path)
  check_files root paths

-- `[a-f0-9]{64}`
unfoldable pub is_digest : Value → Bool
is_digest (str s) = length s == 64 && all is_hex_digit s
is_digest v = false

abbrev pub is_lower : ℕ → Bool
is_lower c = leb 97 c && leb c 122

-- `[a-z][a-z0-9_]{0,62}`
unfoldable pub is_identifier : Text → Bool
is_identifier [] = false
is_identifier (c ∷ s) =
    (is_lower c && leb (length s) 62) && all (λ d. (is_lower d || is_digit d) || d == b'_') s

abbrev pub identifier_fields : List Text
identifier_fields =
    txt "module" ∷ txt "action" ∷ txt "targetSchema" ∷ txt "targetFunction" ∷ txt "effectTable" ∷ []

unfoldable pub check_identifiers : (Value → Text) → Fields → List Text → Result LoadError (Unit {0})
check_identifiers repr value [] = ok tt
check_identifiers repr value (name ∷ names) = do
  refuse_if (not (is_identifier (str_of repr (get_or_null name value)))) (wrong_identifier name)
  check_identifiers repr value names

-- the versions and the metadata
unfoldable pub check_metadata : Fields → Result LoadError (Unit {0})
check_metadata value = do
  refuse_if (not (str_is (txt "course-1") (get_or_null (txt "contractVersion") value)))
      wrong_contract
  refuse_if (not (str_is published_fixture_generator (get_or_null (txt "generatorVersion") value)))
      wrong_generator
  refuse_if
      (not (str_is (txt "post-build") (get_or_null (txt "generationPhase") value))
        || not (str_is (txt "runner") (get_or_null (txt "orderingOwner") value)))
      wrong_phase
  refuse_if
      (not (str_is (txt "explicit-test-seed") (get_or_null (txt "seedMode") value))
        || not (value_eq (get_or_null (txt "actionVersion") value) (int (pos 1))))
      wrong_seed

module _ (repr : Value → Text) (sha256_hex : Bytes → Text) (root : Directory) where
  -- the files that the description names are the files of the directory
  unfoldable pub check_references : Fields → Result LoadError (Unit {0})
  check_references value = do
    files ← object_with fixture_file_fields wrong_files (get_or_null (txt "files") value)
    invalid ←
        object_with (txt "schema" ∷ txt "semantic" ∷ []) wrong_invalid_maps
          (get_or_null (txt "invalidMaps") files)
    check_paths (txt "schema") (get_or_null (txt "schema") invalid)
    check_paths (txt "semantic") (get_or_null (txt "semantic") invalid)
    process_data ←
        object_with process_data_fields wrong_process_data (get_or_null (txt "processData") files)
    refuse_if
        (not (same_set (fixture_paths repr files invalid process_data) (listed_files root.files)))
        wrong_file_set
    check_files root (fixture_paths repr files invalid process_data)

  -- the declared digest and that of the files are the published one
  unfoldable pub check_digest : Fields → Result LoadError (Unit {0})
  check_digest value = do
    refuse_if (not (is_digest (get_or_null (txt "digest") value))) wrong_digest_syntax
    actual ← canonical_fixture_digest sha256_hex root
    refuse_if
        (not (str_is published_fixture_digest (get_or_null (txt "digest") value))
          || not (text_eq actual published_fixture_digest))
        wrong_digest

  unfoldable pub load_fixture : Result LoadError Fields
  load_fixture = do
    contents ← or_raise (lookup (txt "fixture.json") root.files) (refused unreadable)
    metadata ← read_metadata contents
    value ← object_with fixture_fields wrong_fields metadata
    check_metadata value
    check_objects value fixture_object_fields
    check_references value
    check_digest value
    check_identifiers repr value identifier_fields
    ok value
