-- ===== src/Sync/Sorted.antt =====
-- `sorted` by a text: the order of Python's texts, and a stable insertion sort.
use poor_travel_agent.Base.{
  ℕ, String, Bool, true, false, ◌&&◌, ◌≡◌, refl, sym, ap, ◌∙◌, inl, inr, List, [], ◌∷◌, filter,
  arith, ltb, eqb, Bool-cases, ◌==◌, str-eq→eq, if◌then◌else◌,
}
use poor_travel_agent.Base.Text.{codes}

-- a <= b, by code points
unfoldable pub leb_codes : List ℕ → List ℕ → Bool
leb_codes [] t = true
leb_codes (a ∷ s) [] = false
leb_codes (a ∷ s) (b ∷ t) = let rest = leb_codes s t in if ltb a b then true else eqb a b && rest

leb_codes_refl : (s : List ℕ) → leb_codes s s ≡ true
unfolding leb_codes
leb_codes_refl [] = refl
leb_codes_refl (a ∷ s) = ground (arith, leb_codes_refl s)

module _ {A : Type 0} (key : A → String) where
  unfoldable pub insert_sorted : A → List A → List A
  insert_sorted x [] = x ∷ []
  insert_sorted x (y ∷ ys) =
      let rest = insert_sorted x ys in
      if leb_codes (codes (key x)) (codes (key y)) then x ∷ y ∷ ys else y ∷ rest

  -- sorted(xs, key=key)
  unfoldable pub sorted : List A → List A
  sorted [] = []
  sorted (x ∷ xs) = insert_sorted x (sorted xs)

  abbrev pub at : String → A → Bool
  at p x = key x == p

  filter-insert :
      (p : String) (x : A) (ys : List A)
      → filter (at p) (insert_sorted x ys) ≡ filter (at p) (x ∷ ys)
  unfolding insert_sorted
  filter-insert p x [] = refl
  filter-insert p x (y ∷ ys) = elim (Bool-cases (leb_codes (codes (key x)) (codes (key y)))) [
    | inl le ↦ rw le refl
    | inr gt ↦ rw gt (later gt (filter-insert p x ys))
  ]
    where
      not_both :
          at p x ≡ true → at p y ≡ true → leb_codes (codes (key x)) (codes (key y)) ≡ false → ⊥
      not_both mine too gt = contradict (
          sym gt
          ∙ ap (λ k. leb_codes (codes (key x)) (codes k))
              (str-eq→eq (key y) p too ∙ sym (str-eq→eq (key x) p mine))
          ∙ leb_codes_refl (codes (key x)))
        where
          contradict : false ≡ true → ⊥
          contradict q = cc

      later :
          leb_codes (codes (key x)) (codes (key y)) ≡ false
          → filter (at p) (insert_sorted x ys) ≡ filter (at p) (x ∷ ys)
          → filter (at p) (y ∷ insert_sorted x ys) ≡ filter (at p) (x ∷ y ∷ ys)
      later gt h = elim (Bool-cases (at p x)) [
        | inr other ↦ rw other (ground (arith, h, other))
        | inl mine ↦ elim (Bool-cases (at p y)) [
          | inl too ↦ absurd (not_both mine too gt)
          | inr other ↦ ground (arith, h, mine, other)
        ]
      ]

  -- the elements with one key stay in their order
  pub filter-sorted : (p : String) (xs : List A) → filter (at p) (sorted xs) ≡ filter (at p) xs
  unfolding sorted
  filter-sorted p [] = refl
  filter-sorted p (x ∷ xs) = filter-insert p x (sorted xs) ∙ ground (arith, filter-sorted p xs)
