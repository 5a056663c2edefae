-- ===== src/Week4/Compose/Paths.antt =====
-- `_path_is_within`: whether a path of the file leads out of the repository.
use db_first_practice.Common.{
  Bool, true, false, not, ◌&&◌, ◌||◌, Option, some, List, [], ◌∷◌, ◌++◌, Text, txt, text_eq,
  is_empty, ◌==◌, leb, if◌then◌else◌,
}
use db_first_practice.Builtins.Find.{fold, starts_with}
use db_first_practice.Json.{Value, str}

-- `[a-z]+://` after a first letter, without case
unfoldable pub scheme_follows : Text → Bool
scheme_follows [] = false
scheme_follows (c ∷ s) =
    let rest = scheme_follows s in
    if leb 97 c && leb c 122 then rest else starts_with (txt "://") (c ∷ s)

-- `^(?:[a-z]+://|git@)` without case
unfoldable pub is_remote : Text → Bool
unfolding scheme_follows
is_remote [] = false
is_remote (c ∷ s) = elim (fold (c ∷ s)) [
  | [] ↦ false
  | d ∷ t ↦ ((leb 97 d && leb d 122) && scheme_follows t) || starts_with (txt "git@") (d ∷ t)
]

unfoldable pub is_absolute : Text → Bool
is_absolute [] = false
is_absolute (c ∷ s) = c == b'/'

-- `base / path`
unfoldable pub join_path : Text → Text → Text
unfolding is_absolute
join_path base path = if is_absolute path then path else base ++ 47 ∷ path

-- `resolved.relative_to(root)` does not raise
unfoldable pub is_below : List Text → List Text → Bool
is_below [] parts = true
is_below (r ∷ root) [] = false
is_below (r ∷ root) (p ∷ parts) = text_eq r p && is_below root parts

abbrev pub both_below : Option (List Text) → Option (List Text) → Bool
both_below (some root) (some parts) = is_below root parts
both_below _ _ = false

-- the directory of the repository, and how the system resolves a path into its parts; `none` is OSError or ValueError
pub record Place : Type 0 where
  pub root : Text
  pub resolve : Text → Option (List Text)

-- `_path_is_within(path, root, base=base)`
unfoldable pub path_is_within : Place → Text → Value → Bool
unfolding is_below join_path is_remote
path_is_within here base (str path) =
    not (is_empty path || is_remote path)
    && both_below (here.resolve here.root) (here.resolve (join_path base path))
path_is_within here base v = false
