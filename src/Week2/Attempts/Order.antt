-- ===== src/Week2/Attempts/Order.antt =====
-- `leases == sorted(set(leases))` holds exactly of strictly increasing lists.
use db_first_practice.Common.{
  ◌≡◌, refl, ap, sym, subst, ◌∙◌, ◌↔◌, true, false, List, [], ◌∷◌, arith, Bool-cases, inl, inr,
}
use db_first_practice.Common.Int.{ℤ, pos, negsuc, int_eq, int_lt, ◌<ℤ◌, int_eq_iff, int_lt_iff}
use db_first_practice.Week2.Attempts.{insert_int, sorted_set, ints_eq}

-- Each integer is below the next.
abbrev pub Increasing : List ℤ → Type 0
Increasing [] = Unit
Increasing (m ∷ []) = Unit
Increasing (m ∷ n ∷ ns) = (m <ℤ n) × Increasing (n ∷ ns)

ints_eq_sound : (ms ns : List ℤ) → ints_eq ms ns ≡ true → ms ≡ ns
unfolding ints_eq
ints_eq_sound [] [] h = refl
ints_eq_sound [] (n ∷ ns) h = cc
ints_eq_sound (m ∷ ms) [] h = cc
ints_eq_sound (m ∷ ms) (n ∷ ns) h = ground (arith, int_eq_iff m n, ints_eq_sound ms ns)

ints_eq_refl : (ns : List ℤ) → ints_eq ns ns ≡ true
unfolding ints_eq
ints_eq_refl [] = refl
ints_eq_refl (n ∷ ns) = ground (arith, int_eq_iff n n, ints_eq_refl ns)

insert_first : (m : ℤ) (ns : List ℤ) → Increasing (m ∷ ns) → insert_int m ns ≡ m ∷ ns
unfolding insert_int
insert_first m [] h = refl
insert_first m (n ∷ ns) h = ground (arith, int_lt_iff m n)

sorted_set-Increasing : (ns : List ℤ) → Increasing ns → sorted_set ns ≡ ns
unfolding sorted_set
sorted_set-Increasing [] h = refl
sorted_set-Increasing (n ∷ []) h = unfold insert_int in refl
sorted_set-Increasing (m ∷ n ∷ ns) h =
    ap (insert_int m) (sorted_set-Increasing (n ∷ ns) h.1) ∙ insert_first m (n ∷ ns) h

not_less : (m n : ℤ) → int_lt m n ≡ false → int_eq m n ≡ false → n <ℤ m
not_less (pos m) (pos n) a b = ground arith
not_less (pos m) (negsuc n) a b = ground arith
not_less (negsuc m) (pos n) a b = ground arith
not_less (negsuc m) (negsuc n) a b = ground arith

module _ (m n : ℤ) (ns : List ℤ) where
  insert_before : int_lt m n ≡ true → insert_int m (n ∷ ns) ≡ m ∷ n ∷ ns
  unfolding insert_int
  insert_before a = ground arith

  insert_same : int_lt m n ≡ false → int_eq m n ≡ true → insert_int m (n ∷ ns) ≡ n ∷ ns
  unfolding insert_int
  insert_same a b = ground arith

  insert_behind :
      int_lt m n ≡ false → int_eq m n ≡ false → insert_int m (n ∷ ns) ≡ n ∷ insert_int m ns
  unfolding insert_int
  insert_behind a b = ground arith

-- what is inserted stands behind what is below it
cons_insert :
    (n m : ℤ) (ns : List ℤ)
    → n <ℤ m
    → Increasing (n ∷ ns)
    → Increasing (insert_int m ns)
    → Increasing (n ∷ insert_int m ns)
cons_insert n m [] l h k = unfold insert_int in (l, tt)
cons_insert n m (o ∷ ns) l h k = elim (Bool-cases (int_lt m o)) [
  | inl a ↦ rw (insert_before m o ns a) (l, rw (insert_before m o ns a) at k)
  | inr a ↦ elim (Bool-cases (int_eq m o)) [
    | inl e ↦ rw (insert_same m o ns a e) h
    | inr e ↦ rw (insert_behind m o ns a e) (h.0, rw (insert_behind m o ns a e) at k)
  ]
]

tail-Increasing : (n : ℤ) (ns : List ℤ) → Increasing (n ∷ ns) → Increasing ns
tail-Increasing n [] h = tt
tail-Increasing n (o ∷ ns) h = h.1

-- what is inserted in order stays in order
Increasing-insert : (m : ℤ) (ns : List ℤ) → Increasing ns → Increasing (insert_int m ns)
Increasing-insert m [] h = unfold insert_int in tt
Increasing-insert m (n ∷ ns) h =
    let rest = Increasing-insert m ns (tail-Increasing n ns h) in
    elim (Bool-cases (int_lt m n)) [
      | inl a ↦ rw (insert_before m n ns a) ((int_lt_iff m n).0 a, h)
      | inr a ↦ elim (Bool-cases (int_eq m n)) [
        | inl e ↦ rw (insert_same m n ns a e) h
        | inr e ↦ rw (insert_behind m n ns a e) (cons_insert n m ns (not_less m n a e) h rest)
      ]
    ]

Increasing-sorted_set : (ns : List ℤ) → Increasing (sorted_set ns)
unfolding sorted_set
Increasing-sorted_set [] = tt
Increasing-sorted_set (n ∷ ns) = Increasing-insert n (sorted_set ns) (Increasing-sorted_set ns)

pub sorted_set_iff : (ns : List ℤ) → (ints_eq ns (sorted_set ns) ≡ true) ↔ Increasing ns
sorted_set_iff ns = (
  λ h. subst Increasing (sym (ints_eq_sound _ _ h)) (Increasing-sorted_set ns),
  λ h. ap (ints_eq ns) (sorted_set-Increasing ns h) ∙ ints_eq_refl ns,
)
