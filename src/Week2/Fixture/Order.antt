-- ===== src/Week2/Fixture/Order.antt =====
-- The order in which a directory's files are listed does not matter to `canonical_fixture_digest`.
use db_first_practice.Common.{
  ◌≡◌, refl, sym, ◌∙◌, Bool, true, false, Bool-cases, inl, inr, List, [], ◌∷◌, map, arith, Text,
}
use mathlib.Core.List.{Perm, Permᴰ}
use mathlib.Core.Logic.{∥∥₁_elim}
use db_first_practice.Json.Print.{text_le}
use db_first_practice.Json.Utf8.{Bytes}
use db_first_practice.Week2.Fixture.Digest.{
  Directory, insert_file, sort_files, canonical_fixture_digest,
}

text_le-total : (s t : Text) → text_le s t ≡ false → text_le t s ≡ true
unfolding text_le
text_le-total [] t h = cc
text_le-total (x ∷ s) [] h = refl
text_le-total (x ∷ s) (y ∷ t) h = ground (arith, text_le-total s t)

text_le-antisym : (s t : Text) → text_le s t ≡ true → text_le t s ≡ true → s ≡ t
unfolding text_le
text_le-antisym [] [] h k = refl
text_le-antisym [] (y ∷ t) h k = cc
text_le-antisym (x ∷ s) [] h k = cc
text_le-antisym (x ∷ s) (y ∷ t) h k = ground (arith, text_le-antisym s t)

text_le_trans : (s t u : Text) → text_le s t ≡ true → text_le t u ≡ true → text_le s u ≡ true
unfolding text_le
text_le_trans [] t u h k = refl
text_le_trans (x ∷ s) [] u h k = cc
text_le_trans (x ∷ s) (y ∷ t) [] h k = cc
text_le_trans (x ∷ s) (y ∷ t) (z ∷ u) h k = ground (arith, text_le_trans s t u)

module _ (contents : Text → Bytes) where
  abbrev entry : Text → Text × Bytes
  entry path = (path, contents path)

  insert_file_swap :
      (p q : Text) (gs : List (Text × Bytes))
      → text_le p q ≡ true
      → text_le q p ≡ false
      → insert_file (entry p) (insert_file (entry q) gs)
        ≡ insert_file (entry q) (insert_file (entry p) gs)
  unfolding insert_file
  insert_file_swap p q [] le gt = simp (insert_file, le, gt)
  insert_file_swap p q ((r, c) ∷ gs) le gt = elim (Bool-cases (text_le q r)) [
    | inl below ↦ simp (insert_file, le, gt, below, text_le_trans p q r le below)
    | inr above ↦ elim (Bool-cases (text_le p r)) [
      | inl below ↦ simp (insert_file, gt, above, below)
      | inr over ↦ simp (insert_file, above, over, insert_file_swap p q gs le gt)
    ]
  ]

  -- Two files that are inserted may change places.
  insert_file_comm :
      (p q : Text) (gs : List (Text × Bytes))
      → insert_file (entry p) (insert_file (entry q) gs)
        ≡ insert_file (entry q) (insert_file (entry p) gs)
  insert_file_comm p q gs = elim (Bool-cases (text_le p q)) [
    | inr over ↦ sym (insert_file_swap q p gs (text_le-total p q over) over)
    | inl le ↦ elim (Bool-cases (text_le q p)) [
      | inl ge ↦ rw (text_le-antisym p q le ge) refl
      | inr gt ↦ insert_file_swap p q gs le gt
    ]
  ]

  sort_files-Permᴰ :
      {ps qs : List Text} → Permᴰ ps qs → sort_files (map entry ps) ≡ sort_files (map entry qs)
  unfolding sort_files
  sort_files-Permᴰ Permᴰ.nil = refl
  sort_files-Permᴰ (Permᴰ.cons {a = p} {l₂ = qs} e rest) = rw (sort_files-Permᴰ rest, e) refl
  sort_files-Permᴰ (Permᴰ.swap {a = p} {b = q} {l = ps} e f) =
      rw (insert_file_comm p q (sort_files (map entry ps)), e, f) refl
  sort_files-Permᴰ (Permᴰ.trans left right) = sort_files-Permᴰ left ∙ sort_files-Permᴰ right

  files_set : IsSet (List (Text × Bytes))
  files_set = hlevel

  -- A directory of these files, with these paths inside it.
  abbrev pub directory : (Text → Bool) → List Text → Directory
  directory inside paths = record { files = map entry paths; inside = inside }

  -- The digest of a directory is the same in whatever order its files are listed.
  pub canonical_fixture_digest-Perm :
      (sha256_hex : Bytes → Text) (inside : Text → Bool) {ps qs : List Text}
      → Perm ps qs
      → canonical_fixture_digest sha256_hex (directory inside ps)
        ≡ canonical_fixture_digest sha256_hex (directory inside qs)
  unfolding canonical_fixture_digest
  canonical_fixture_digest-Perm sha256_hex inside {ps} {qs} same =
      let sorted : sort_files (map entry ps) ≡ sort_files (map entry qs) =
        ∥∥₁_elim same (files_set (sort_files (map entry ps)) (sort_files (map entry qs)))
          sort_files-Permᴰ in
      rw sorted refl
