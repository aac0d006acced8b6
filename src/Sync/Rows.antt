-- ===== src/Sync/Rows.antt =====
-- The changes of one path, out of the changes of a whole scan.
use poor_travel_agent.Base.{
  ℕ, String, Bool, ◌≡◌, refl, sym, ap, ◌∙◌, inl, inr, Option, none, some, List, [], ◌∷◌, ◌++◌,
  append-nil, filter, arith, Bool-cases, ◌==◌, str-eq→eq, if◌then◌else◌,
}
use poor_travel_agent.Base.Dict.{IsDict, put-IsDict, Dict, lookup}
use poor_travel_agent.Sync.Sorted.{at, filter-sorted}
use poor_travel_agent.Sync.Changes.{
  ScannedFile, SyncChange, Manifest, Context, scanned_change, deleted_change, collect, sorted_items,
  changes_in, put_scanned, current_files,
}

put_scanned-IsDict :
    (scanned : List ScannedFile) (d : Dict ScannedFile) → IsDict d → IsDict (put_scanned scanned d)
unfolding put_scanned
put_scanned-IsDict [] d h = h
put_scanned-IsDict (s ∷ ss) d h = put_scanned-IsDict ss _ (put-IsDict s.relative_path s d h)

pub current_files-IsDict : (scanned : List ScannedFile) → IsDict (current_files scanned)
unfolding IsDict
current_files-IsDict scanned = put_scanned-IsDict scanned [] tt

filter-append :
    {A : Type 0} (p : A → Bool) (xs ys : List A) → filter p (xs ++ ys) ≡ filter p xs ++ filter p ys
filter-append p [] ys = refl
filter-append p (x ∷ xs) ys = ground (arith, filter-append p xs ys)

module _ {V : Type 0} (f : String × V → List SyncChange) (p : String) where
  -- what a loop over the items does for a key that may be there
  abbrev pub at_key : Option V → List SyncChange
  at_key none = []
  at_key (some v) = f (p, v)

  filter-none : (d : Dict V) → lookup p d ≡ none → filter (at (λ e. e.0) p) d ≡ []
  unfolding lookup
  filter-none [] h = refl
  filter-none ((k, v) ∷ d) h = elim (Bool-cases (k == p)) [
    | inl same ↦ absurd (no (ground (arith, same, h)))
    | inr other ↦ rw other (filter-none d (ground (arith, other, h)))
  ]
    where
      no : some v ≡ none → ⊥
      no q = cc

  collect_items :
      (d : Dict V) → IsDict d → collect f (filter (at (λ e. e.0) p) d) ≡ at_key (lookup p d)
  unfolding IsDict lookup collect
  collect_items [] h = refl
  collect_items ((k, v) ∷ d) (new, h) = elim (Bool-cases (k == p)) [
    | inl same ↦ rw same (
        ap (λ xs. f (k, v) ++ collect f xs)
          (filter-none d (ap (λ x. lookup x d) (sym (str-eq→eq k p same)) ∙ new))
        ∙ append-nil (f (k, v))
        ∙ ap (λ x. f (x, v)) (str-eq→eq k p same))
    | inr other ↦ rw other (collect_items d h)
  ]

  module _
      (own : (e : String × V)
        → filter (at SyncChange.relative_path p) (f e) ≡ (if e.0 == p then f e else [])) where
    filter-collect :
        (xs : Dict V)
        → filter (at SyncChange.relative_path p) (collect f xs)
          ≡ collect f (filter (at (λ e. e.0) p) xs)
    unfolding collect
    filter-collect [] = refl
    filter-collect (e ∷ xs) =
        filter-append (at SyncChange.relative_path p) (f e) (collect f xs)
        ∙ ground (arith, own e, filter-collect xs)

    pub filter-sorted_items :
        (d : Dict V)
        → IsDict d
        → filter (at SyncChange.relative_path p) (collect f (sorted_items d)) ≡ at_key (lookup p d)
    filter-sorted_items d h =
        filter-collect (sorted_items d)
        ∙ ap (collect f) (filter-sorted (λ e. e.0) p d)
        ∙ collect_items d h

own_scanned :
    (c : Context) (p k : String) (s : ScannedFile) (o : Option (String × String))
    → filter (at SyncChange.relative_path p) (scanned_change c k s o)
      ≡ (if k == p then scanned_change c k s o else [])
unfolding scanned_change
own_scanned c p k s none = ground arith
own_scanned c p k s (some (revision, status)) = ground arith

own_deleted :
    (c : Context) (scope : List ℕ) (p k : String) (o : Option ScannedFile) (row : String × String)
    → filter (at SyncChange.relative_path p) (deleted_change c scope o k row)
      ≡ (if k == p then deleted_change c scope o k row else [])
unfolding deleted_change
own_deleted c scope p k o (revision, status) = ground arith

-- the change of a path that may have been scanned, and of one that may be in the manifest
abbrev pub scanned_of : Context → Manifest → String → Option ScannedFile → List SyncChange
scanned_of c previous p o = at_key (λ e. scanned_change c e.0 e.1 (lookup e.0 previous)) p o

abbrev pub deleted_of :
    Context → List ℕ → Dict ScannedFile → String → Option (String × String) → List SyncChange
deleted_of c scope current p o =
    at_key (λ e. deleted_change c scope (lookup e.0 current) e.0 e.1) p o

pub filter-changes_in :
    (c : Context) (scope : List ℕ) (current : Dict ScannedFile) (previous : Manifest) (p : String)
    → IsDict current
    → IsDict previous
    → filter (at SyncChange.relative_path p) (changes_in c scope current previous)
      ≡ scanned_of c previous p (lookup p current)
        ++ deleted_of c scope current p (lookup p previous)
unfolding changes_in
filter-changes_in c scope current previous p h g =
    filter-sorted SyncChange.relative_path p _
    ∙ filter-append (at SyncChange.relative_path p) _ _
    ∙ both
        (filter-sorted_items (λ e. scanned_change c e.0 e.1 (lookup e.0 previous)) p
          (λ e. own_scanned c p e.0 e.1 (lookup e.0 previous)) current h)
        (filter-sorted_items (λ e. deleted_change c scope (lookup e.0 current) e.0 e.1) p
          (λ e. own_deleted c scope p e.0 (lookup e.0 current) e.1) previous g)
  where
    both : {xs ys zs ws : List SyncChange} → xs ≡ zs → ys ≡ ws → xs ++ ys ≡ zs ++ ws
    both a b = cc
