-- ===== src/Thread/Order.antt =====
-- References do not depend on the order in which they come.
use poor_travel_agent.Base.{
  ℕ, true, false, ◌≡◌, refl, sym, subst, ap, ◌∙◌, inl, inr, Option, some, List, [], ◌∷◌, ◌++◌,
  Bool-cases, last_n, arith,
}
use poor_travel_agent.Thread.Keyed.{items_or_empty}
use poor_travel_agent.Thread.Evidence.{
  Text, is_before, insert_new, insert_all, sorted_set, stripped, merge_sorted, merge_evidence_refs,
  merge_evidence_fingerprints,
}

is_before_asym : (a b : Text) → is_before a b ≡ true → is_before b a ≡ false
unfolding is_before
is_before_asym a [] h = ground (arith, h)
is_before_asym [] (b ∷ t) h = refl
is_before_asym (a ∷ s) (b ∷ t) h = ground (arith, h, is_before_asym s t)

is_before_trans :
    (a b c : Text) → is_before a b ≡ true → is_before b c ≡ true → is_before a c ≡ true
unfolding is_before
is_before_trans a b [] h g = ground (arith, g)
is_before_trans a [] (z ∷ u) h g = ground (arith, h)
is_before_trans [] (y ∷ t) (z ∷ u) h g = refl
is_before_trans (x ∷ s) (y ∷ t) (z ∷ u) h g = ground (arith, h, g, is_before_trans s t u)

same_of : (a b : Text) → is_before a b ≡ false → is_before b a ≡ false → a ≡ b
unfolding is_before
same_of [] [] h g = refl
same_of [] (b ∷ t) h g = ground (arith, h)
same_of (a ∷ s) [] h g = ground (arith, g)
same_of (a ∷ s) (b ∷ t) h g = ground (arith, h, g, same_of s t)

is_before_refl : (a : Text) → is_before a a ≡ false
unfolding is_before
is_before_refl [] = refl
is_before_refl (a ∷ s) = ground (arith, is_before_refl s)

-- how two texts compare
data Compared (a b : Text) : Type 0 where
  less : is_before a b ≡ true → is_before b a ≡ false → Compared a b
  same : a ≡ b → is_before a b ≡ false → is_before b a ≡ false → Compared a b
  more : is_before a b ≡ false → is_before b a ≡ true → Compared a b

compare_texts : (a b : Text) → Compared a b
compare_texts a b = elim (Bool-cases (is_before a b)) [
  | inl h ↦ less h (is_before_asym a b h)
  | inr h ↦ elim (Bool-cases (is_before b a)) [
    | inl g ↦ more h g
    | inr g ↦ same (same_of a b h g) h g
  ]
]

insert_new-swap :
    (a b : Text) (s : List Text) → insert_new a (insert_new b s) ≡ insert_new b (insert_new a s)
unfolding insert_new
insert_new-swap a b [] = by (compare_texts a b)
  where
    by : Compared a b → insert_new a (b ∷ []) ≡ insert_new b (a ∷ [])
    by (less h g) = rw (h, g) refl
    by (same e h g) = subst (λ x. insert_new a (x ∷ []) ≡ insert_new x (a ∷ [])) e refl
    by (more h g) = rw (h, g) refl
insert_new-swap a b (y ∷ ys) =
    by (insert_new-swap a b ys) (compare_texts a y) (compare_texts b y) (compare_texts a b)
  where
    by :
        insert_new a (insert_new b ys) ≡ insert_new b (insert_new a ys)
        → Compared a y
        → Compared b y
        → Compared a b
        → insert_new a (insert_new b (y ∷ ys)) ≡ insert_new b (insert_new a (y ∷ ys))
    by ih (less h g) (less k l) (less m n) = ground (arith, h, g, k, l, m, n)
    by ih (less h g) (less k l) (more m n) = ground (arith, h, g, k, l, m, n)
    by ih (less h g) (less k l) (same e m n) =
        subst (λ x. insert_new a (insert_new x (y ∷ ys)) ≡ insert_new x (insert_new a (y ∷ ys))) e
          refl
    by ih (less h g) (same e k l) r =
        ground (arith, h, g, k, l, ap (λ x. is_before a x) e, ap (λ x. is_before x a) e)
    by ih (less h g) (more k l) r =
        let m = is_before_trans a y b h l in ground (arith, h, g, k, l, m, is_before_asym a b m)
    by ih (same e h g) (less k l) r =
        ground (arith, h, g, k, l, ap (λ x. is_before b x) e, ap (λ x. is_before x b) e)
    by ih (same e h g) (same f k l) r = ground (arith, h, g, k, l)
    by ih (same e h g) (more k l) r = ground (arith, h, g, k, l)
    by ih (more h g) (less k l) r =
        let m = is_before_trans b y a k g in ground (arith, h, g, k, l, m, is_before_asym b a m)
    by ih (more h g) (same e k l) r = ground (arith, h, g, k, l)
    by ih (more h g) (more k l) r = ground (arith, h, g, k, l, ih)

insert_all-insert_new :
    (x : Text) (xs s : List Text) → insert_all xs (insert_new x s) ≡ insert_new x (insert_all xs s)
unfolding insert_all
insert_all-insert_new x [] s = refl
insert_all-insert_new x (y ∷ ys) s =
    ap (insert_new y) (insert_all-insert_new x ys s) ∙ insert_new-swap y x (insert_all ys s)

insert_all-append :
    (xs ys s : List Text) → insert_all (xs ++ ys) s ≡ insert_all xs (insert_all ys s)
unfolding insert_all
insert_all-append [] ys s = refl
insert_all-append (x ∷ xs) ys s = ap (insert_new x) (insert_all-append xs ys s)

insert_all-swap :
    (xs ys s : List Text) → insert_all xs (insert_all ys s) ≡ insert_all ys (insert_all xs s)
unfolding insert_all
insert_all-swap [] ys s = refl
insert_all-swap (x ∷ xs) ys s =
    ap (insert_new x) (insert_all-swap xs ys s) ∙ sym (insert_all-insert_new x ys (insert_all xs s))

stripped-append : (xs ys : List Text) → stripped (xs ++ ys) ≡ stripped xs ++ stripped ys
stripped-append [] ys = refl
stripped-append (x ∷ xs) ys = ground (arith, stripped-append xs ys)

three :
    (es xs ys : List Text)
    → sorted_set (stripped (es ++ (xs ++ ys)))
      ≡ insert_all (stripped es) (insert_all (stripped xs) (insert_all (stripped ys) []))
three es xs ys =
    ap sorted_set
      (stripped-append es (xs ++ ys) ∙ ap (λ z. stripped es ++ z) (stripped-append xs ys))
    ∙ insert_all-append (stripped es) (stripped xs ++ stripped ys) []
    ∙ ap (insert_all (stripped es)) (insert_all-append (stripped xs) (stripped ys) [])

merge_sorted-swap :
    (cap : ℕ) (existing : Option (List Text)) (xs ys : List Text)
    → merge_sorted cap existing (some (xs ++ ys)) ≡ merge_sorted cap existing (some (ys ++ xs))
unfolding merge_sorted
merge_sorted-swap cap existing xs ys = ap (last_n cap) (
    three (items_or_empty existing) xs ys
    ∙ ap (insert_all (stripped (items_or_empty existing)))
        (insert_all-swap (stripped xs) (stripped ys) [])
    ∙ sym (three (items_or_empty existing) ys xs))

-- Whatever a thread has, an update with the evidence of one child before that of another gives the same
-- references, and the same fingerprints, as an update with the two the other way round.
pub evidence_order_is_irrelevant :
    (existing : Option (List Text)) (xs ys : List Text)
    → (merge_evidence_refs existing (some (xs ++ ys))
        ≡ merge_evidence_refs existing (some (ys ++ xs)))
      × (merge_evidence_fingerprints existing (some (xs ++ ys))
          ≡ merge_evidence_fingerprints existing (some (ys ++ xs)))
unfolding merge_evidence_refs merge_evidence_fingerprints
evidence_order_is_irrelevant existing xs ys =
    (merge_sorted-swap _ existing xs ys, merge_sorted-swap _ existing xs ys)
