-- ===== src/Policy/Bounds.antt =====
-- What a diff that the policy allows can touch.
use poor_travel_agent.Base.{
  ◌+◌, ◌≤◌, String, ◌≡◌, refl, ap, subst, ◌∙◌, Bool, true, false, not, List, [], ◌∷◌, any, map,
  length, filter, All, arith, Bool-cases, inl, inr, if◌then◌else◌,
}
use poor_travel_agent.Policy.Paths.{
  Text, is_absolute, has_parent, same_text, starts_with, is_invalid, normalized, as_posix, distinct,
  normalized_paths, is_production_path, is_test_path, is_frontend_path, is_protected,
}
use poor_travel_agent.Policy.Rules.{
  WorkerResult, DiffSnapshot, changed_lines, PolicyDecision, decide, is_unauthorized,
  classify_candidate, diff_reasons, is_tier_a, tier_of, evaluate_diff,
}

same_text-eq : (s t : Text) → same_text s t ≡ true → s ≡ t
unfolding same_text
same_text-eq [] [] h = refl
same_text-eq [] (b ∷ t) h = cc
same_text-eq (a ∷ s) [] h = cc
same_text-eq (a ∷ s) (b ∷ t) h = ground (arith, same_text-eq s t)

-- A text that is among others has what they all have.
of_member :
    (p : Text → Bool) (s : Text) (ss : List Text)
    → any (same_text s) ss ≡ true
    → any p ss ≡ false
    → p s ≡ false
of_member p s [] h k = cc
of_member p s (t ∷ ts) h k = elim (Bool-cases (same_text s t)) [
  | inl same ↦ ap p (same_text-eq s t same) ∙ ground (arith, k)
  | inr other ↦ of_member p s ts (ground (arith, h, other)) (ground (arith, k))
]

any-distinct :
    (p : Text → Bool) (seen ss : List Text)
    → any p seen ≡ false
    → any p (distinct seen ss) ≡ false
    → any p ss ≡ false
unfolding distinct
any-distinct p seen [] h k = refl
any-distinct p seen (s ∷ ss) h k = elim (Bool-cases (any (same_text s) seen)) [
  | inl known ↦ ground (arith, of_member p s seen known h, any-distinct p seen ss h, k, known)
  | inr new ↦ ground (arith, any-distinct p (s ∷ seen) ss, h, k, new)
]

-- A path that is not in normal form lies outside of the frontend.
invalid_is_unauthorized : (f : Text) → is_invalid f ≡ true → is_unauthorized (normalized f) ≡ true
unfolding normalized is_frontend_path is_production_path is_test_path starts_with
invalid_is_unauthorized f h = ground (arith, h)

-- a file inside of the repository, of the frontend, not protected, and declared
pub record IsSafe (declared : List Text) (f : Text) : Type 0 where
  pub is_relative : is_absolute f ≡ false
  pub stays_inside : has_parent f ≡ false
  pub is_frontend : is_frontend_path (as_posix f) ≡ true
  pub is_open : is_protected (as_posix f) ≡ false
  pub is_declared : any (same_text (as_posix f)) declared ≡ true

abbrev undeclared : List Text → Text → Bool
undeclared declared p = not (any (same_text p) declared)

authorized-IsSafe :
    (declared : List Text) (f : Text)
    → is_unauthorized (normalized f) ≡ false
    → undeclared declared (normalized f) ≡ false
    → IsSafe declared f
authorized-IsSafe declared f h k =
    let inside : is_invalid f ≡ false = ground (arith, h, invalid_is_unauthorized f) in
    let form : normalized f ≡ as_posix f = unfold normalized in ground (arith, inside) in
    let ok : is_unauthorized (as_posix f) ≡ false = subst (λ x. is_unauthorized x ≡ false) form h in
    let known : undeclared declared (as_posix f) ≡ false =
      subst (λ x. undeclared declared x ≡ false) form k in
    record {
      is_relative = unfold is_invalid in ground (arith, inside);
      stays_inside = unfold is_invalid in ground (arith, inside);
      is_frontend = ground (arith, ok);
      is_open = ground (arith, ok);
      is_declared = ground (arith, known);
    }

All-IsSafe :
    (declared fs : List Text)
    → any is_unauthorized (map normalized fs) ≡ false
    → any (undeclared declared) (map normalized fs) ≡ false
    → All (IsSafe declared) fs
All-IsSafe declared [] h k = tt
All-IsSafe declared (f ∷ fs) h k = (
  authorized-IsSafe declared f (ground (arith, h)) (ground (arith, k)),
  All-IsSafe declared fs (ground (arith, h)) (ground (arith, k)),
)

-- What an allowed diff has passed.
record Passed (c : WorkerResult) (d : DiffSnapshot) : Type 0 where
  authorized : any is_unauthorized (normalized_paths d.changed_files) ≡ false
  declared :
      any (undeclared (normalized_paths c.changed_files)) (normalized_paths d.changed_files) ≡ false
  in_budget : (tier_of d (normalized_paths d.changed_files)).allowed ≡ true

no_reasons :
    (rs : List String) (d : PolicyDecision)
    → (decide rs d).allowed ≡ true
    → (rs ≡ []) × (d.allowed ≡ true)
no_reasons [] d h = (refl, h)
no_reasons (r ∷ rs) d h = cc

taken : (a b : PolicyDecision) → (if a.allowed then b else a).allowed ≡ true → b.allowed ≡ true
taken a b h = elim (Bool-cases a.allowed) [
  | inl let_in ↦ ground (arith, h, let_in)
  | inr out ↦ ground (arith, h, out)
]

evaluated :
    (casefold : Text → Text) (c : WorkerResult) (d : DiffSnapshot) (dirty : List Text)
    → (evaluate_diff casefold c d dirty).allowed ≡ true
    → (decide
        (diff_reasons casefold d
          (normalized_paths c.changed_files)
          (normalized_paths d.changed_files)
          dirty)
        (tier_of d (normalized_paths d.changed_files))).allowed
      ≡ true
unfolding evaluate_diff
evaluated casefold c d dirty h = taken (classify_candidate casefold c dirty []) _ h

reasons_none :
    (casefold : Text → Text) (d : DiffSnapshot) (declared actual dirty : List Text)
    → diff_reasons casefold d declared actual dirty ≡ []
    → (any is_unauthorized actual ≡ false) × (any (undeclared declared) actual ≡ false)
unfolding diff_reasons
reasons_none casefold d declared actual dirty h = ground (arith, h)

evaluate_diff-Passed :
    (casefold : Text → Text) (c : WorkerResult) (d : DiffSnapshot) (dirty : List Text)
    → (evaluate_diff casefold c d dirty).allowed ≡ true
    → Passed c d
evaluate_diff-Passed casefold c d dirty h =
    let (none_left, fits) = no_reasons _ _ (evaluated casefold c d dirty h) in
    let (a, b) = reasons_none casefold d _ _ dirty none_left in
    record { authorized = a; declared = b; in_budget = fits }

-- Every file that an allowed diff changes has a relative path with no "..", which in its normal form
-- is that of a component, a view or a test of the frontend, is not protected, and is among the paths
-- that the candidate declared.
pub evaluate_diff-IsSafe :
    (casefold : Text → Text) (c : WorkerResult) (d : DiffSnapshot) (dirty : List Text)
    → (evaluate_diff casefold c d dirty).allowed ≡ true
    → All (IsSafe (normalized_paths c.changed_files)) d.changed_files
unfolding normalized_paths
evaluate_diff-IsSafe casefold c d dirty h =
    let p = evaluate_diff-Passed casefold c d dirty h in
    All-IsSafe (normalized_paths c.changed_files) d.changed_files
      (any-distinct is_unauthorized [] (map normalized d.changed_files) refl p.authorized)
      (any-distinct (undeclared (normalized_paths c.changed_files)) []
        (map normalized d.changed_files) refl p.declared)

frontend_count :
    (ps : List Text)
    → any is_unauthorized ps ≡ false
    → length ps ≤ length (filter is_production_path ps) + length (filter is_test_path ps)
unfolding is_frontend_path
frontend_count [] h = omega arith
frontend_count (p ∷ ps) h = ground (arith, h, frontend_count ps)

in_tier :
    (d : DiffSnapshot) (ps : List Text)
    → length ps ≤ length (filter is_production_path ps) + length (filter is_test_path ps)
    → (tier_of d ps).allowed ≡ true
    → (length ps ≤ 3) × (changed_lines d ≤ 150)
in_tier d ps few h = elim (Bool-cases (is_tier_a d ps)) [
  | inl a ↦ ground (arith, few, a)
  | inr b ↦ ground (arith, h, b)
]

-- An allowed diff changes at most three files, counted once each in their normal form, and at most
-- 150 lines, whichever tier it is given.
pub allowed_diff_is_small :
    (casefold : Text → Text) (c : WorkerResult) (d : DiffSnapshot) (dirty : List Text)
    → (evaluate_diff casefold c d dirty).allowed ≡ true
    → (length (normalized_paths d.changed_files) ≤ 3) × (changed_lines d ≤ 150)
allowed_diff_is_small casefold c d dirty h =
    let p = evaluate_diff-Passed casefold c d dirty h in
    let few = frontend_count (normalized_paths d.changed_files) p.authorized in
    in_tier d (normalized_paths d.changed_files) few p.in_budget
