-- ===== src/Week4/Metrics/Shown.antt =====
-- What is added to a table of labels is in it, and what was in it stays.
use db_first_practice.Common.{
  ◌≡◌, refl, true, List, [], ◌∷◌, ◌++◌, arith, Text, text_eq, text_eq_iff, text_eq_refl, mem_text,
  Bool-cases, inl, inr, subst,
}
use db_first_practice.Common.Assoc.{lookup}
use db_first_practice.Week4.Metrics.Labels.{LabelValues, values_at, add_label, add_new}
use db_first_practice.Week4.Metrics.{add_values, merge_labels}
use db_first_practice.Week4.Metrics.Values.{values_at-hit, values_at-skip}

-- The table has the value for the name.
abbrev pub Shows : Text → Text → LabelValues → Type 0
Shows n v labels = mem_text v (values_at n labels) ≡ true

mem_text-left : (v : Text) (xs ys : List Text) → mem_text v xs ≡ true → mem_text v (xs ++ ys) ≡ true
mem_text-left v [] ys h = cc
mem_text-left v (x ∷ xs) ys h = ground (arith, mem_text-left v xs ys)

mem_text-last : (v : Text) (xs : List Text) → mem_text v (xs ++ v ∷ []) ≡ true
mem_text-last v [] = rw (text_eq_refl v) refl
mem_text-last v (x ∷ xs) = ground (arith, mem_text-last v xs)

add_new-keeps :
    (v w : Text) (vs : List Text) → mem_text v vs ≡ true → mem_text v (add_new w vs) ≡ true
unfolding add_new
add_new-keeps v w vs h = elim (Bool-cases (mem_text w vs)) [
  | inl old ↦ rw (add_new, old) h
  | inr new ↦ rw (add_new, new) (mem_text-left v vs (w ∷ []) h)
]

add_new-has : (w : Text) (vs : List Text) → mem_text w (add_new w vs) ≡ true
unfolding add_new
add_new-has w vs = elim (Bool-cases (mem_text w vs)) [
  | inl old ↦ rw (add_new, old) old
  | inr new ↦ rw (add_new, new) (mem_text-last w vs)
]

add_label-has : (m w : Text) (table : LabelValues) → Shows m w (add_label m w table)
unfolding add_label
add_label-has m w [] = rw (values_at-hit m m (w ∷ []) [] (text_eq_refl m), text_eq_refl w) refl
add_label-has m w ((k, vs) ∷ table) = elim (Bool-cases (text_eq k m)) [
  | inl same ↦ rw (add_label, same, values_at-hit m k (add_new w vs) table same) (add_new-has w vs)
  | inr other ↦
      rw (add_label, other, values_at-skip m k vs (add_label m w table) other)
        (add_label-has m w table)
]

add_label-keeps :
    (n v m w : Text) (table : LabelValues) → Shows n v table → Shows n v (add_label m w table)
unfolding add_label values_at lookup
add_label-keeps n v m w [] h = cc
add_label-keeps n v m w ((k, vs) ∷ table) h = elim (Bool-cases (text_eq k n)) [
  | inl here ↦
      let old : mem_text v vs ≡ true = rw (values_at-hit n k vs table here) at h in
      elim (Bool-cases (text_eq k m)) [
        | inl same ↦
            rw (add_label, same, values_at-hit n k (add_new w vs) table here)
              (add_new-keeps v w vs old)
        | inr other ↦ rw (add_label, other, values_at-hit n k vs (add_label m w table) here) old
      ]
  | inr away ↦
      let old : Shows n v table = rw (values_at-skip n k vs table away) at h in
      elim (Bool-cases (text_eq k m)) [
        | inl same ↦ rw (add_label, same, values_at-skip n k (add_new w vs) table away) old
        | inr other ↦
            rw (add_label, other, values_at-skip n k vs (add_label m w table) away)
              (add_label-keeps n v m w table old)
      ]
]

add_values-keeps :
    (n v m : Text) (ws : List Text) (table : LabelValues)
    → Shows n v table
    → Shows n v (add_values m ws table)
unfolding add_values
add_values-keeps n v m [] table h = h
add_values-keeps n v m (w ∷ ws) table h =
    add_values-keeps n v m ws (add_label m w table) (add_label-keeps n v m w table h)

add_values-has :
    (m v : Text) (ws : List Text) (table : LabelValues)
    → mem_text v ws ≡ true
    → Shows m v (add_values m ws table)
unfolding add_values
add_values-has m v [] table h = cc
add_values-has m v (w ∷ ws) table h = elim (Bool-cases (text_eq v w)) [
  | inl same ↦ add_values-keeps m v m ws (add_label m w table) (
      subst (λ u. Shows m v (add_label m u table)) ((text_eq_iff v w).0 same)
        (add_label-has m v table))
  | inr other ↦ add_values-has m v ws (add_label m w table) (rw other at h)
]

pub merge_labels-keeps :
    (n v : Text) (found table : LabelValues)
    → Shows n v table
    → Shows n v (merge_labels found table)
unfolding merge_labels
merge_labels-keeps n v [] table h = h
merge_labels-keeps n v ((m, ws) ∷ more) table h =
    merge_labels-keeps n v more (add_values m ws table) (add_values-keeps n v m ws table h)

pub merge_labels-has :
    (n v : Text) (found table : LabelValues)
    → Shows n v found
    → Shows n v (merge_labels found table)
unfolding merge_labels values_at lookup
merge_labels-has n v [] table h = cc
merge_labels-has n v ((m, ws) ∷ more) table h = elim (Bool-cases (text_eq m n)) [
  | inl same ↦
      let here : mem_text v ws ≡ true = rw (values_at-hit n m ws more same) at h in
      merge_labels-keeps n v more (add_values m ws table) (
        subst (λ k. Shows k v (add_values m ws table)) ((text_eq_iff m n).0 same)
          (add_values-has m v ws table here))
  | inr other ↦
      merge_labels-has n v more (add_values m ws table) (rw (values_at-skip n m ws more other) at h)
]
