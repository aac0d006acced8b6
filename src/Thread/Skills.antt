-- ===== src/Thread/Skills.antt =====
-- `merge_skill_context`: the skills that a thread has loaded, the latest last.
use poor_travel_agent.Base.{
  ℕ, ◌-◌, ◌≤◌, String, ◌≡◌, refl, sym, subst, true, false, not, ◌||◌, Option, none, some, List, [],
  ◌∷◌, ◌++◌, map, take, any, length, length-last_n, last_n, filter, ◌==◌, eq_iff, if◌then◌else◌,
  arith,
}
use poor_travel_agent.Base.Text.{join_words}
use poor_travel_agent.Base.Json.{ℤ, pos}
use poor_travel_agent.Base.Effect.{Result, ok, raised}
use poor_travel_agent.Base.Effect.Inverse.{ok-ne-raised}
use poor_travel_agent.Thread.Update.{Error, value_error}
use poor_travel_agent.Thread.Keyed.{items_or_empty}
use poor_travel_agent.Thread.Unique.{is_unique, unique-drop, map-drop, same}

-- What an entry brings. A name, a path or a revision is the text that `str` makes of the value, and
-- `none` where the key is missing or the value is false. A description that is no text and a time that
-- is no integer are `none`.
pub record SkillEntry : Type 0 where
  pub name : Option String
  pub path : Option String
  pub description : Option (List ℕ)
  pub loaded_at : Option ℤ
  pub revision : Option (List ℕ)

pub record SkillRef : Type 0 where
  pub name : String
  pub path : String
  pub description : List ℕ
  pub loaded_at : ℤ
  pub revision : List ℕ

abbrev or_default {ℓ} : {A : Type ℓ} → A → Option A → A
or_default d none = d
or_default d (some a) = a

abbrev described : Option (List ℕ) → List ℕ
described none = []
described (some text) = take 500 (join_words false false text)

abbrev normal : SkillEntry → String → SkillRef
normal entry path = record {
  name = or_default "" entry.name;
  path = path;
  description = described entry.description;
  loaded_at = or_default (pos 0) entry.loaded_at;
  revision = take 64 (or_default [] entry.revision);
}

unfoldable pub normalize_skill : SkillEntry → Result Error SkillRef
normalize_skill entry =
    if or_default "" entry.path == ""
    then raised value_error
    else ok (normal entry (or_default "" entry.path))

-- `order.remove(path)`, `order.append(path)` and `by_path[path] = item`, on the items in their order
unfoldable pub move_to_end : SkillRef → List SkillRef → List SkillRef
move_to_end item items = filter (λ x. not (x.path == item.path)) items ++ item ∷ []

unfoldable pub collect_skills : List SkillRef → List SkillEntry → Result Error (List SkillRef)
collect_skills items [] = ok items
collect_skills items (x ∷ xs) = elim (normalize_skill x) [
  | ok item ↦ collect_skills (move_to_end item items) xs
  | raised e ↦ raised e
]

unfoldable pub normalize_all : List SkillEntry → Result Error (List SkillRef)
normalize_all [] = ok []
normalize_all (x ∷ xs) =
    let rest = normalize_all xs in
    elim (normalize_skill x) [
      | ok item ↦ elim rest [ ok items ↦ ok (item ∷ items) | raised e ↦ raised e ]
      | raised e ↦ raised e
    ]

abbrev pub max_skill_context : ℕ
max_skill_context = 8

abbrev pub last_skills : Result Error (List SkillRef) → Result Error (List SkillRef)
last_skills (ok items) = ok (last_n max_skill_context items)
last_skills (raised e) = raised e

unfoldable pub merge_skill_context :
    Option (List SkillEntry) → Option (List SkillEntry) → Result Error (List SkillRef)
merge_skill_context existing none = last_skills (normalize_all (items_or_empty existing))
merge_skill_context existing (some []) = ok []
merge_skill_context existing (some (x ∷ xs)) =
    last_skills (collect_skills [] (items_or_empty existing ++ x ∷ xs))

abbrev pub paths_of : List SkillRef → List String
paths_of items = map (λ x. x.path) items

any-filter :
    (p k : String) (items : List SkillRef)
    → any (λ j. j == k) (paths_of items) ≡ false
    → any (λ j. j == k) (paths_of (filter (λ x. not (x.path == p)) items)) ≡ false
any-filter p k [] h = refl
any-filter p k (x ∷ xs) h = ground (arith, h, any-filter p k xs)

unique-filter :
    (p : String) (items : List SkillRef)
    → is_unique (paths_of items) ≡ true
    → is_unique (paths_of (filter (λ x. not (x.path == p)) items)) ≡ true
unfolding is_unique
unique-filter p [] h = refl
unique-filter p (x ∷ xs) h = ground (arith, h, unique-filter p xs, any-filter p x.path xs)

any-end :
    (k : String) (item : SkillRef) (items : List SkillRef)
    → any (λ j. j == k) (paths_of (items ++ item ∷ []))
      ≡ (any (λ j. j == k) (paths_of items) || item.path == k)
any-end k item [] = ground arith
any-end k item (x ∷ xs) = ground (arith, any-end k item xs)

unique-end :
    (item : SkillRef) (items : List SkillRef)
    → is_unique (paths_of items) ≡ true
    → any (λ j. j == item.path) (paths_of items) ≡ false
    → is_unique (paths_of (items ++ item ∷ [])) ≡ true
unfolding is_unique
unique-end item [] h k = refl
unique-end item (x ∷ xs) h k = ground (
  arith,
  h,
  k,
  unique-end item xs,
  any-end x.path item xs,
  eq_iff x.path item.path,
  eq_iff item.path x.path,
)

removed :
    (p : String) (items : List SkillRef)
    → any (λ j. j == p) (paths_of (filter (λ x. not (x.path == p)) items)) ≡ false
removed p [] = refl
removed p (x ∷ xs) = ground (arith, removed p xs)

unique-move :
    (item : SkillRef) (items : List SkillRef)
    → is_unique (paths_of items) ≡ true
    → is_unique (paths_of (move_to_end item items)) ≡ true
unfolding move_to_end
unique-move item items h =
    unique-end item _ (unique-filter item.path items h) (removed item.path items)

stepped :
    (r : Result Error SkillRef) (items : List SkillRef) (xs : List SkillEntry) {out : List SkillRef}
    → elim r [ ok item ↦ collect_skills (move_to_end item items) xs | raised e ↦ raised e ] ≡ ok out
    → (item : SkillRef) × (collect_skills (move_to_end item items) xs ≡ ok out)
stepped (ok item) items xs h = (item, h)
stepped (raised e) items xs h = absurd (ok-ne-raised _ h refl)

collect_step :
    (items : List SkillRef) (x : SkillEntry) (xs : List SkillEntry) {out : List SkillRef}
    → collect_skills items (x ∷ xs) ≡ ok out
    → (item : SkillRef) × (collect_skills (move_to_end item items) xs ≡ ok out)
unfolding collect_skills
collect_step items x xs h = stepped (normalize_skill x) items xs h

collect_end :
    (items : List SkillRef) {out : List SkillRef} → collect_skills items [] ≡ ok out → items ≡ out
unfolding collect_skills
collect_end items h = same refl h

unique-collect :
    (xs : List SkillEntry) (items out : List SkillRef)
    → is_unique (paths_of items) ≡ true
    → collect_skills items xs ≡ ok out
    → is_unique (paths_of out) ≡ true
unique-collect [] items out h k = subst (λ x. is_unique (paths_of x) ≡ true) (collect_end items k) h
unique-collect (x ∷ xs) items out h k =
    let (item, rest) = collect_step items x xs k in
    unique-collect xs (move_to_end item items) out (unique-move item items h) rest

last_ok :
    (r : Result Error (List SkillRef)) {out : List SkillRef}
    → last_skills r ≡ ok out
    → (items : List SkillRef) × (r ≡ ok items) × (last_n max_skill_context items ≡ out)
last_ok (ok items) h = (items, refl, same refl h)
last_ok (raised e) h = absurd (ok-ne-raised _ h refl)

-- An accepted update with at least one skill leaves at most eight skills, no path twice, whatever
-- the thread had before.
pub merge_skill_context_unique :
    (existing : Option (List SkillEntry)) (x : SkillEntry) (xs : List SkillEntry)
    (out : List SkillRef)
    → merge_skill_context existing (some (x ∷ xs)) ≡ ok out
    → (length out ≤ max_skill_context) × (is_unique (paths_of out) ≡ true)
unfolding merge_skill_context
merge_skill_context_unique existing x xs out h =
    let (items, p, e) = last_ok _ h in
    let found =
      unique-collect (items_or_empty existing ++ x ∷ xs) [] items (unfold is_unique in refl) p in
    (
      subst (λ y. length y ≤ max_skill_context) e (length-last_n max_skill_context items),
      subst (λ y. is_unique (paths_of y) ≡ true) e
          (subst (λ ks. is_unique ks ≡ true)
            (sym (map-drop (λ y. y.path) (length items - max_skill_context) items))
            (unique-drop (length items - max_skill_context) (paths_of items) found)),
    )
