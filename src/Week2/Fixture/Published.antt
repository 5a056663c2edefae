-- ===== src/Week2/Fixture/Published.antt =====
-- What a fixture is that `load_fixture` accepts.
use db_first_practice.Common.{
  ◌≡◌, ap, ◌∙◌, true, false, not, some, List, [], ◌∷◌, Text, txt, text_eq_iff, mem_text, All, any,
  subst,
}
use db_first_practice.Common.Assoc.{lookup, and-left, and-right}
use db_first_practice.Common.Results.{
  Result, ok, raise_if-ok, raise_if-false, ok_injective, >>=-eq-ok, or_raise-ok, then-ok,
}
use db_first_practice.Json.{
  Value, null, bool, int, float, special, str, arr, obj, Fields, get_or_null, keys_are, entries,
}
use db_first_practice.Json.Dict.{str_is_sound}
use db_first_practice.Json.Parse.{loads}
use db_first_practice.Json.Utf8.{Bytes, decode}
use db_first_practice.Findings.{str_of, not-false, or-false-left, or-false-right}
use db_first_practice.Week2.Fixture.Tables.{
  fixture_fields, fixture_object_fields, process_data_fields,
}
use db_first_practice.Week2.Fixture.Digest.{
  FixtureError, LoadError, wrong_process_data, Directory, read_metadata, hashed_bytes, sort_files,
  canonical_fixture_digest,
}
use db_first_practice.Week2.Fixture.Load.{
  published_fixture_digest, object_with, check_object, check_objects, is_full, check_paths,
  fixture_paths, listed_files, same_set, is_unsafe_path, check_files, is_identifier,
  identifier_fields, check_identifiers, check_metadata, check_references, check_digest,
  load_fixture,
}

object_with-ok :
    (keys : List Text) (e : FixtureError) (v : Value) {d : Fields}
    → object_with keys e v ≡ ok d
    → (v ≡ obj d) × (keys_are keys d ≡ true)
unfolding object_with
object_with-ok keys e (obj d) h =
    let (fine, same) = raise_if-ok _ _ _ h in
    let keyed : keys_are keys d ≡ true = not-false _ fine in
    (ap obj (ok_injective same), subst (λ c. keys_are keys c ≡ true) (ok_injective same) keyed)
object_with-ok keys e null h = cc
object_with-ok keys e (bool b) h = cc
object_with-ok keys e (int n) h = cc
object_with-ok keys e (float m k) h = cc
object_with-ok keys e (special x) h = cc
object_with-ok keys e (str s) h = cc
object_with-ok keys e (arr vs) h = cc

-- the check of a category's paths
abbrev paths_of : Text → Fields → Result LoadError (Unit {0})
paths_of category invalid = check_paths category (get_or_null category invalid)

-- A path that names a file below the root.
pub record IsSafePath (root : Directory) (path : Text) : Type 0 where
  pub relative : is_unsafe_path path ≡ false
  pub there : mem_text path (listed_files root.files) ≡ true
  pub inside : root.inside path ≡ true

check_files-ok :
    (root : Directory) (paths : List Text)
    → check_files root paths ≡ ok tt
    → All (IsSafePath root) paths
unfolding check_files
check_files-ok root [] h = tt
check_files-ok root (path ∷ paths) h =
    let (relative, h1) = raise_if-ok _ _ _ h in
    let (found, h2) = raise_if-ok _ _ _ h1 in
    let both = not-false _ found in
    (
      record { relative = relative; there = and-left _ _ both; inside = and-right _ _ both },
      check_files-ok root paths h2,
    )

module _ (repr : Value → Text) where
  -- A name that goes into SQL.
  abbrev pub IsNamed : Fields → Text → Type 0
  IsNamed value name = is_identifier (str_of repr (get_or_null name value)) ≡ true

  check_identifiers-ok :
      (value : Fields) (names : List Text)
      → check_identifiers repr value names ≡ ok tt
      → All (IsNamed value) names
  unfolding check_identifiers
  check_identifiers-ok value [] h = tt
  check_identifiers-ok value (name ∷ names) h =
      let (fine, rest) = raise_if-ok _ _ _ h in
      (not-false _ fine, check_identifiers-ok value names rest)

  -- An object of the fixture: its keys, each with a text that is not empty.
  pub record IsObject (value : Fields) (entry : Text × List Text) : Type 0 where
    pub child : Fields
    pub is_child : get_or_null entry.0 value ≡ obj child
    pub keyed : keys_are entry.1 child ≡ true
    pub full : any (λ (k, v). not (is_full v)) (entries child) ≡ false

  check_objects-ok :
      (value : Fields) (table : List (Text × List Text))
      → check_objects value table ≡ ok tt
      → All (IsObject value) table
  unfolding check_objects check_object
  check_objects-ok value [] h = tt
  check_objects-ok value ((name, keys) ∷ table) h =
      let (here, rest) = then-ok (check_object value (name, keys)) _ h in
      let (child, e, full) = >>=-eq-ok _ _ here in
      let (same, keyed) = object_with-ok keys _ _ e in
      (
        record { child = child; is_child = same; keyed = keyed; full = raise_if-false _ _ full },
        check_objects-ok value table rest,
      )

module _ (repr : Value → Text) (sha256_hex : Bytes → Text) (root : Directory) where
  -- The files that the fixture names are those of the directory.
  pub record NamesFiles (value : Fields) : Type 0 where
    pub files : Fields
    pub invalid : Fields
    pub process_data : Fields
    pub is_files : get_or_null (txt "files") value ≡ obj files
    pub is_invalid : get_or_null (txt "invalidMaps") files ≡ obj invalid
    pub is_process_data : get_or_null (txt "processData") files ≡ obj process_data
    pub exact :
        same_set (fixture_paths repr files invalid process_data) (listed_files root.files) ≡ true
    pub safe : All (IsSafePath root) (fixture_paths repr files invalid process_data)

  references-ok :
      (value : Fields) → check_references repr sha256_hex root value ≡ ok tt → NamesFiles value
  unfolding check_references
  references-ok value h =
      let (files, e1, h1) = >>=-eq-ok _ _ h in
      let (invalid, e2, h2) = >>=-eq-ok _ _ h1 in
      let (_, h3) = then-ok (paths_of (txt "schema") invalid) _ h2 in
      let (_, h4) = then-ok (paths_of (txt "semantic") invalid) _ h3 in
      let (process_data, e3, h5) =
        >>=-eq-ok
          (object_with process_data_fields wrong_process_data
            (get_or_null (txt "processData") files))
          _ h4 in
      let (exact, h6) = raise_if-ok _ _ _ h5 in
      record {
        files = files;
        invalid = invalid;
        process_data = process_data;
        is_files = (object_with-ok _ _ _ e1).0;
        is_invalid = (object_with-ok _ _ _ e2).0;
        is_process_data = (object_with-ok _ _ _ e3).0;
        exact = not-false _ exact;
        safe = check_files-ok root _ h6;
      }

  -- The hash of the directory is the published one, and the fixture says so.
  pub record HasDigest (value : Fields) : Type 0 where
    pub declared : get_or_null (txt "digest") value ≡ str published_fixture_digest
    pub bytes : Bytes
    pub hashed : hashed_bytes (sort_files root.files) ≡ ok bytes
    pub published : sha256_hex bytes ≡ published_fixture_digest

  digest-ok : (value : Fields) → check_digest repr sha256_hex root value ≡ ok tt → HasDigest value
  unfolding check_digest canonical_fixture_digest
  digest-ok value h =
      let (_, h1) = raise_if-ok _ _ _ h in
      let (actual, e, h2) = >>=-eq-ok _ _ h1 in
      let (bytes, hashed, same) = >>=-eq-ok _ _ e in
      let fine = raise_if-false _ _ h2 in
      record {
        declared = str_is_sound _ _ (not-false _ (or-false-left _ _ fine));
        bytes = bytes;
        hashed = hashed;
        published = ok_injective same ∙ (text_eq_iff _ _).0 (not-false _ (or-false-right _ _ fine));
      }

  pub record IsPublished (value : Fields) : Type 0 where
    pub contents : Bytes
    pub text : Text
    pub found : lookup (txt "fixture.json") root.files ≡ some contents
    pub decoded : decode contents ≡ some text
    pub parsed : loads text ≡ some (obj value)
    pub keyed : keys_are fixture_fields value ≡ true
    pub objects : All (IsObject repr value) fixture_object_fields
    pub names_files : NamesFiles value
    pub has_digest : HasDigest value
    pub identifiers : All (IsNamed repr value) identifier_fields

  -- A fixture that is loaded is what fixture.json says; it has the fixture's keys and objects, names
  -- exactly the files below the root by safe paths, its files hash to the published digest, which it
  -- declares, and its names are identifiers.
  pub load_fixture-IsPublished :
      {value : Fields} → load_fixture repr sha256_hex root ≡ ok value → IsPublished value
  unfolding load_fixture read_metadata
  load_fixture-IsPublished {value} h =
      let (contents, found, h1) = >>=-eq-ok _ _ h in
      let (metadata, e1, h2) = >>=-eq-ok _ _ h1 in
      let (text, decoded, parsed) = >>=-eq-ok _ _ e1 in
      let (loaded, e2, h3) = >>=-eq-ok _ _ h2 in
      let (is_object, keyed) = object_with-ok _ _ _ e2 in
      let (_, h4) = then-ok (check_metadata loaded) _ h3 in
      let (objects, h5) = then-ok (check_objects loaded fixture_object_fields) _ h4 in
      let (references, h6) = then-ok (check_references repr sha256_hex root loaded) _ h5 in
      let (digest, h7) = then-ok (check_digest repr sha256_hex root loaded) _ h6 in
      let (identifiers, h8) = then-ok (check_identifiers repr loaded identifier_fields) _ h7 in
      let same : loaded ≡ value = ok_injective h8 in
      subst IsPublished same (record {
        contents = contents;
        text = text;
        found = or_raise-ok _ _ found;
        decoded = or_raise-ok _ _ decoded;
        parsed = or_raise-ok _ _ parsed ∙ ap some is_object;
        keyed = keyed;
        objects = check_objects-ok repr loaded fixture_object_fields objects;
        names_files = references-ok loaded references;
        has_digest = digest-ok loaded digest;
        identifiers = check_identifiers-ok repr loaded identifier_fields identifiers;
      })
