-- ===== src/Thread/Evidence.antt =====
-- `merge_evidence_refs` and `merge_evidence_fingerprints`: sorted sets of texts, as code points.
use poor_travel_agent.Base.{
  ℕ, Bool, true, false, ◌&&◌, ◌||◌, Option, none, some, List, [], ◌∷◌, ◌++◌, map, filter, last_n,
  ltb, eqb, if◌then◌else◌,
}
use poor_travel_agent.Base.Text.{strip}
use poor_travel_agent.Thread.Keyed.{items_or_empty}

abbrev pub Text : Type 0
Text = List ℕ

-- a < b, by code points
unfoldable pub is_before : Text → Text → Bool
is_before s [] = false
is_before [] (b ∷ t) = true
is_before (a ∷ s) (b ∷ t) = let rest = is_before s t in ltb a b || eqb a b && rest

-- one more element of a sorted set
unfoldable pub insert_new : Text → List Text → List Text
insert_new x [] = x ∷ []
insert_new x (y ∷ ys) =
    let rest = insert_new x ys in
    if is_before x y then x ∷ y ∷ ys else (if is_before y x then y ∷ rest else y ∷ ys)

unfoldable pub insert_all : List Text → List Text → List Text
insert_all [] s = s
insert_all (x ∷ xs) s = insert_new x (insert_all xs s)

-- sorted(set(xs))
abbrev pub sorted_set : List Text → List Text
sorted_set xs = insert_all xs []

abbrev is_filled : Text → Bool
is_filled [] = false
is_filled (c ∷ s) = true

-- {item.strip() for item in xs if item.strip()}
abbrev pub stripped : List Text → List Text
stripped xs = filter is_filled (map strip xs)

-- both reducers, which differ in the number of texts that they keep
unfoldable pub merge_sorted : ℕ → Option (List Text) → Option (List Text) → List Text
merge_sorted cap existing none = last_n cap (sorted_set (items_or_empty existing))
merge_sorted cap existing (some new) =
    last_n cap (sorted_set (stripped (items_or_empty existing ++ new)))

abbrev pub max_evidence_refs : ℕ
max_evidence_refs = 128

unfoldable pub merge_evidence_refs : Option (List Text) → Option (List Text) → List Text
merge_evidence_refs existing new = merge_sorted max_evidence_refs existing new

abbrev pub max_evidence_fingerprints : ℕ
max_evidence_fingerprints = 256

unfoldable pub merge_evidence_fingerprints : Option (List Text) → Option (List Text) → List Text
merge_evidence_fingerprints existing new = merge_sorted max_evidence_fingerprints existing new
