-- ===== src/Week2/Fixture/Digest.antt =====
-- `canonical_fixture_digest` of week 2: the bytes that are hashed for a directory of files.
use db_first_practice.Common.{Bool, List, [], ◌∷◌, ◌++◌, if◌then◌else◌, Text, txt, text_eq}
use db_first_practice.Common.Results.{Result, ok, err, ◌>>=◌, or_raise}
use db_first_practice.Json.{Value, obj, Fields, end, field}
use db_first_practice.Json.Parse.{loads}
use db_first_practice.Json.Print.{dumps_sorted, text_le}
use db_first_practice.Json.Utf8.{Bytes, encode, decode}
use db_first_practice.Findings.{Fault, value_error}

-- the `FixtureError`s, by what they say
pub data FixtureError : Type 0 where
  unreadable invalid_json not_an_object wrong_fields wrong_contract wrong_generator : FixtureError
  wrong_phase wrong_seed wrong_files wrong_invalid_maps wrong_process_data wrong_file_set :
      FixtureError
  wrong_digest_syntax wrong_digest : FixtureError
  wrong_object empty_text wrong_paths wrong_path unsafe_path missing_path wrong_identifier :
      Text → FixtureError

-- a `FixtureError`, or another exception
pub data LoadError : Type 0 where
  refused : FixtureError → LoadError
  raised : Fault → LoadError

-- the files below the root by their paths, and whether a path, with its links resolved, stays there
pub record Directory : Type 0 where
  pub files : List (Text × Bytes)
  pub inside : Text → Bool

unfoldable pub insert_file : Text × Bytes → List (Text × Bytes) → List (Text × Bytes)
insert_file f [] = f ∷ []
insert_file f (g ∷ gs) =
    let later = insert_file f gs in if text_le f.0 g.0 then f ∷ g ∷ gs else g ∷ later

-- `sorted(files, key=relative path)`
unfoldable pub sort_files : List (Text × Bytes) → List (Text × Bytes)
sort_files [] = []
sort_files (f ∷ fs) = insert_file f (sort_files fs)

-- `metadata.pop(key, None)`
unfoldable pub without : Text → Fields → Fields
without k end = end
without k (field j v d) = let rest = without k d in if text_eq j k then rest else field j v rest

-- `json.loads(bytes.decode("utf-8"))`
unfoldable pub read_metadata : Bytes → Result LoadError Value
read_metadata contents = do
  text ← or_raise (decode contents) (raised value_error)
  or_raise (loads text) (refused invalid_json)

abbrev pub as_object : FixtureError → Value → Result LoadError Fields
as_object e (obj d) = ok d
as_object e v = err (refused e)

-- fixture.json without its digest
unfoldable pub canonical_metadata : Bytes → Result LoadError Bytes
canonical_metadata contents = do
  value ← read_metadata contents
  metadata ← as_object not_an_object value
  or_raise (encode (dumps_sorted (obj (without (txt "digest") metadata)) ++ 10 ∷ []))
      (raised value_error)

unfoldable pub hashed_contents : Text → Bytes → Result LoadError Bytes
hashed_contents path contents =
    if text_eq path (txt "fixture.json") then canonical_metadata contents else ok contents

-- what the hash is fed, file by file
unfoldable pub hashed_bytes : List (Text × Bytes) → Result LoadError Bytes
hashed_bytes [] = ok []
hashed_bytes ((path, contents) ∷ files) = do
  name ← or_raise (encode path) (raised value_error)
  shown ← hashed_contents path contents
  rest ← hashed_bytes files
  ok (name ++ 0 ∷ (shown ++ 0 ∷ rest))

-- `sha256_hex` is SHA-256 in hexadecimal, from the library
unfoldable pub canonical_fixture_digest : (Bytes → Text) → Directory → Result LoadError Text
canonical_fixture_digest sha256_hex root = do
  bytes ← hashed_bytes (sort_files root.files)
  ok (sha256_hex bytes)
