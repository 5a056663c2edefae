-- ===== src/Week2/Compose/Tests.antt =====
-- A Compose file that week 2 finds nothing unsafe in, and texts for its commands.
use db_first_practice.Common.{
  ◌↔◌, ◌≡◌, refl, false, some, [], ◌∷◌, ◌++◌, ◌≤◌, Text, txt, length, has_code, if◌then◌else◌,
}
use db_first_practice.Json.{Value, null, str, arr, obj, nil, cons, Fields, end, field}
use db_first_practice.Builtins.Find.{starts_with, after_prefix}
use db_first_practice.Week4.Compose.Paths.{Place}
use db_first_practice.Week2.Compose.{sql_literal, normalize_image_id, exactly}
use db_first_practice.Week2.Compose.Texts.{sql_literal_sound, IsImage, normalize_image_id_iff}

abbrev repr : Value → Text
repr v = txt "{}"

abbrev expand : Text → Text
expand path = path

-- a file system without links, whose working copy is /repo
abbrev repo : Place
repo = record {
  root = txt "/repo";
  resolve = λ path. if starts_with (txt "/repo") path then some (txt "repo" ∷ []) else some [];
}

abbrev api : Fields
api = field (txt "build") (str (txt ".")) (
    field (txt "volumes") (arr (cons (str (txt "data:/var/lib/data")) nil))
      (field (txt "env_file") (str (txt "api.env")) end))

abbrev config : Fields
config =
    field (txt "services") (obj (field (txt "api") (obj api) end))
      (field (txt "volumes") (obj (field (txt "data") null end)) end)

abbrev key : Text
key = txt "order-17:v2"

key_literal : sql_literal key ≡ some (txt "'order-17:v2'")
unfolding txt sql_literal
key_literal = refl

sql_literal_sound_example :
    (txt "'order-17:v2'" ≡ 39 ∷ (key ++ 39 ∷ []))
    × (1 ≤ length key)
    × (length key ≤ 180)
    × (has_code 39 key ≡ false)
    × (has_code 92 key ≡ false)
sql_literal_sound_example = sql_literal_sound key key_literal

abbrev image : Text
image = txt "sha256:70e5e0dd9ab8425be84de431ec74516f9bedf5d5529077358e2e2b2037fe0c74"

image_normal : normalize_image_id (image ++ 10 ∷ []) ≡ some image
unfolding txt normalize_image_id exactly after_prefix
image_normal = refl

normalize_image_id_iff_example :
    (normalize_image_id (image ++ 10 ∷ []) ≡ some image) ↔ IsImage (image ++ 10 ∷ []) image
normalize_image_id_iff_example = normalize_image_id_iff (image ++ 10 ∷ []) image
