-- ===== src/Thread/Tools.antt =====
-- `merge_promoted_tools`: the tools of one catalog, with a text as its code points.
use poor_travel_agent.Base.{
  ℕ, ◌≤◌, zero, suc, Bool, true, false, ◌&&◌, not, ◌≡◌, refl, ap, sym, inl, inr, Option, none, some,
  List, [], ◌∷◌, ◌++◌, map, filter, any, all, last_n, drop, length, length-last_n, arith,
  Bool-cases, if◌then◌else◌,
}
use poor_travel_agent.Base.Text.{strip}
use poor_travel_agent.Base.Effect.{Result, ok, raised}
use poor_travel_agent.Policy.Paths.{Text, same_text, distinct}
use poor_travel_agent.Thread.Update.{Error, value_error}
use poor_travel_agent.Thread.Keyed.{items_or_empty}

pub record PromotedTools : Type 0 where
  pub catalog_hash : Text
  pub names : List Text
  pub capability_ids : Option (List Text)

abbrev pub max_promoted_tools : ℕ
max_promoted_tools = 64

abbrev pub is_filled : Text → Bool
is_filled [] = false
is_filled (c ∷ s) = true

-- the texts without the white space around them, each once, and no empty one
unfoldable pub cleaned : List Text → List Text
cleaned items = filter is_filled (distinct [] (map strip items))

-- the same of old texts, which are stripped, and new ones, which are clean
unfoldable pub joined : List Text → List Text → List Text
joined old new = filter is_filled (distinct [] (map strip old ++ new))

abbrev cleaned_ids : Option (List Text) → Option (List Text)
cleaned_ids none = none
cleaned_ids (some ids) = some (last_n max_promoted_tools (cleaned ids))

abbrev joined_ids : Option (List Text) → Option (List Text) → Option (List Text)
joined_ids none none = none
joined_ids old new =
    some (last_n max_promoted_tools (joined (items_or_empty old) (cleaned (items_or_empty new))))

abbrev replaced : Text → PromotedTools → PromotedTools
replaced catalog_hash new = record {
  catalog_hash = catalog_hash;
  names = last_n max_promoted_tools (cleaned new.names);
  capability_ids = cleaned_ids new.capability_ids;
}

abbrev extended : Text → PromotedTools → PromotedTools → PromotedTools
extended catalog_hash existing new = record {
  catalog_hash = catalog_hash;
  names = last_n max_promoted_tools (joined existing.names (cleaned new.names));
  capability_ids = joined_ids existing.capability_ids new.capability_ids;
}

abbrev by_existing : Text → Option PromotedTools → PromotedTools → PromotedTools
by_existing catalog_hash none new = replaced catalog_hash new
by_existing catalog_hash (some existing) new =
    if same_text existing.catalog_hash catalog_hash
    then extended catalog_hash existing new
    else replaced catalog_hash new

unfoldable pub merge_promoted_tools :
    Option PromotedTools → Option PromotedTools → Result Error (Option PromotedTools)
merge_promoted_tools existing none = ok existing
merge_promoted_tools existing (some new) =
    if not (is_filled (strip new.catalog_hash))
    then raised value_error
    else ok (some (by_existing (strip new.catalog_hash) existing new))

-- no text twice
pub is_distinct : List Text → Bool
is_distinct [] = true
is_distinct (x ∷ xs) = not (any (same_text x) xs) && is_distinct xs

same_text-eq : (a b : Text) → same_text a b ≡ true → a ≡ b
unfolding same_text
same_text-eq [] [] h = refl
same_text-eq [] (b ∷ t) h = ground (arith, h)
same_text-eq (a ∷ s) [] h = ground (arith, h)
same_text-eq (a ∷ s) (b ∷ t) h = ground (arith, h, same_text-eq s t)

same_text_refl : (a : Text) → same_text a a ≡ true
unfolding same_text
same_text_refl [] = refl
same_text_refl (a ∷ s) = ground (arith, same_text_refl s)

seen_is_left_out :
    (x : Text) (seen xs : List Text)
    → any (same_text x) seen ≡ true
    → any (same_text x) (distinct seen xs) ≡ false
unfolding distinct
seen_is_left_out x seen [] h = refl
seen_is_left_out x seen (s ∷ ss) h = elim (Bool-cases (any (same_text s) seen)) [
  | inl known ↦ rw known (seen_is_left_out x seen ss h)
  | inr new ↦ rw new (ground (arith, other new, seen_is_left_out x (s ∷ seen) ss, h))
]
  where
    other : any (same_text s) seen ≡ false → same_text x s ≡ false
    other new = elim (Bool-cases (same_text x s)) [
      | inl e ↦
          absurd
            (ground (arith, sym (ap (λ y. any (same_text y) seen) (same_text-eq x s e)), h, new))
      | inr d ↦ d
    ]

distinct_lem : (seen xs : List Text) → is_distinct (distinct seen xs) ≡ true
unfolding distinct is_distinct
distinct_lem seen [] = refl
distinct_lem seen (s ∷ ss) = elim (Bool-cases (any (same_text s) seen)) [
  | inl known ↦ rw known (distinct_lem seen ss)
  | inr new ↦ rw new (
      ground
        (arith, distinct_lem (s ∷ seen) ss, seen_is_left_out s (s ∷ seen) ss, same_text_refl s))
]

any-filter :
    (x : Text) (xs : List Text)
    → any (same_text x) xs ≡ false
    → any (same_text x) (filter is_filled xs) ≡ false
any-filter x [] h = refl
any-filter x (y ∷ ys) h = ground (arith, h, any-filter x ys)

-- each text once, none empty, and no more than 64
pub record IsClean (names : List Text) : Type 0 where
  pub distinct_names : is_distinct names ≡ true
  pub filled : all is_filled names ≡ true

filter-IsClean : (xs : List Text) → is_distinct xs ≡ true → IsClean (filter is_filled xs)
unfolding is_distinct
filter-IsClean [] h = record { distinct_names = refl; filled = refl }
filter-IsClean (x ∷ xs) h =
    let rest = filter-IsClean xs (ground (arith, h)) in
    record {
      distinct_names = ground (arith, h, rest.distinct_names, any-filter x xs);
      filled = ground (arith, rest.filled);
    }

drop-IsClean : (n : ℕ) (xs : List Text) → IsClean xs → IsClean (drop n xs)
unfolding is_distinct
drop-IsClean zero xs h = h
drop-IsClean (suc n) [] h = h
drop-IsClean (suc n) (x ∷ xs) h = drop-IsClean n xs (record {
  distinct_names = ground (arith, h.distinct_names);
  filled = ground (arith, h.filled);
})

last-IsClean :
    (xs : List Text)
    → is_distinct xs ≡ true
    → IsClean (last_n max_promoted_tools (filter is_filled xs))
      × (length (last_n max_promoted_tools (filter is_filled xs)) ≤ max_promoted_tools)
last-IsClean xs h =
    (drop-IsClean _ _ (filter-IsClean xs h), length-last_n max_promoted_tools (filter is_filled xs))

by_existing-IsClean :
    (h : Text) (existing : Option PromotedTools) (new : PromotedTools)
    → IsClean (by_existing h existing new).names
      × (length (by_existing h existing new).names ≤ max_promoted_tools)
unfolding cleaned joined
by_existing-IsClean h none new = last-IsClean _ (distinct_lem [] (map strip new.names))
by_existing-IsClean h (some existing) new = elim (Bool-cases (same_text existing.catalog_hash h)) [
  | inl same ↦
      rw same (last-IsClean _ (distinct_lem [] (map strip existing.names ++ cleaned new.names)))
  | inr other ↦ rw other (last-IsClean _ (distinct_lem [] (map strip new.names)))
]

-- Whatever a thread has, an update with tools that is accepted leaves at most 64 names, none of them empty
-- and none twice, and the catalog of the update.
pub promoted_names-IsClean :
    (existing : Option PromotedTools) (new : PromotedTools) (result : Option PromotedTools)
    → merge_promoted_tools existing (some new) ≡ ok result
    → (tools : PromotedTools) × ((result ≡ some tools)
        × ((tools.catalog_hash ≡ strip new.catalog_hash)
            × (IsClean tools.names × (length tools.names ≤ max_promoted_tools))))
unfolding merge_promoted_tools
promoted_names-IsClean existing new result e = (
  by_existing (strip new.catalog_hash) existing new,
  (returned e, (hash existing, by_existing-IsClean (strip new.catalog_hash) existing new)),
)
  where
    hash :
        (o : Option PromotedTools)
        → (by_existing (strip new.catalog_hash) o new).catalog_hash ≡ strip new.catalog_hash
    hash none = refl
    hash (some x) = ground arith

    returned :
        merge_promoted_tools existing (some new) ≡ ok result
        → result ≡ some (by_existing (strip new.catalog_hash) existing new)
    returned e = elim (Bool-cases (not (is_filled (strip new.catalog_hash)))) [
      | inl empty ↦ absurd (ground (arith, e, empty))
      | inr filled ↦ ground (arith, e, filled)
    ]
