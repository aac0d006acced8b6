-- ===== src/Thread/Unique.antt =====
-- The lists that the reducers of references return: bounded, and with every id once.
use poor_travel_agent.Base.{
  ℕ, zero, suc, ◌≤◌, ◌-◌, String, ◌≡◌, refl, sym, subst, ap, ◌∙◌, Bool, true, ◌&&◌, ◌||◌, not,
  Option, none, some, List, [], ◌∷◌, ◌++◌, map, any, last_n, drop, length, length-last_n, ◌==◌,
  eq_iff, arith,
}
use poor_travel_agent.Base.Effect.{Result, ok, raised}
use poor_travel_agent.Base.Effect.Inverse.{ok-ne-raised}
use poor_travel_agent.Base.Dict.{Dict, put}
use poor_travel_agent.Thread.Update.{Error}
use poor_travel_agent.Thread.Keyed.{
  items_or_empty, set_accepted, collect, values, last_values, merge_by_id, ArtifactRef,
  accept_artifact, merge_artifacts, MemoryRef, accept_memory, merge_memory_refs, DelegationEntry,
  accept_delegation, merge_delegations, max_artifacts, max_memory_refs, max_delegations,
}

abbrev pub text_of : Option String → String
text_of none = ""
text_of (some s) = s

-- no text twice
unfoldable pub is_unique : List String → Bool
is_unique [] = true
is_unique (k ∷ ks) = not (any (λ j. j == k) ks) && is_unique ks

abbrev keys : {A : Type 0} → Dict A → List String
keys d = map (λ p. p.0) d

any-put :
    {A : Type 0} (k j : String) (v : A) (d : Dict A)
    → any (λ i. i == j) (keys (put k v d)) ≡ (any (λ i. i == j) (keys d) || k == j)
unfolding put
any-put k j v [] = ground arith
any-put k j v ((i, w) ∷ d) = ground (arith, any-put k j v d, eq_iff i k)

unique-put :
    {A : Type 0} (k : String) (v : A) (d : Dict A)
    → is_unique (keys d) ≡ true
    → is_unique (keys (put k v d)) ≡ true
unfolding put is_unique
unique-put k v [] h = refl
unique-put k v ((i, w) ∷ d) h =
    ground (arith, h, any-put k i v d, unique-put k v d, eq_iff i k, eq_iff k i)

pub unique-drop : (n : ℕ) (ks : List String) → is_unique ks ≡ true → is_unique (drop n ks) ≡ true
unfolding is_unique
unique-drop zero ks h = h
unique-drop (suc n) [] h = refl
unique-drop (suc n) (k ∷ ks) h = unique-drop n ks (ground (arith, h))

pub map-drop :
    {A B : Type 0} (f : A → B) (n : ℕ) (xs : List A) → map f (drop n xs) ≡ drop n (map f xs)
map-drop f zero xs = refl
map-drop f (suc n) [] = refl
map-drop f (suc n) (x ∷ xs) = map-drop f n xs

pub same : {A : Type 0} {a b : A} {r : Result Error A} → r ≡ ok a → r ≡ ok b → a ≡ b
same h k = ground arith

values_ok :
    {A : Type 0} (cap : ℕ) (r : Result Error (Dict A)) {out : List A}
    → last_values cap r ≡ ok out
    → (d : Dict A) × (r ≡ ok d) × (last_n cap (values d) ≡ out)
values_ok cap (ok d) h = (d, refl, same refl h)
values_ok cap (raised e) h = absurd (ok-ne-raised _ h refl)

module _ {A : Type 0} (accept : Dict A → A → Result Error (Option (String × A))) where
  pub step_ok :
      (d : Dict A) (x : A) (xs : List A) {t : Dict A}
      → collect accept d (x ∷ xs) ≡ ok t
      → (e : Dict A) × (set_accepted d (accept d x) ≡ ok e) × (collect accept e xs ≡ ok t)
  unfolding collect
  step_ok d x xs h = ground arith

  pub collect_nil : (d : Dict A) {t : Dict A} → collect accept d [] ≡ ok t → d ≡ t
  unfolding collect
  collect_nil d q = same refl q

module _ {A : Type 0} (key : A → Option String) where
  abbrev ids : List A → List String
  ids xs = map (λ x. text_of (key x)) xs

  -- at most `cap` items, no id twice
  pub record IsKeyed (cap : ℕ) (xs : List A) : Type 0 where
    pub is_bounded : length xs ≤ cap
    pub has_unique_ids : is_unique (ids xs) ≡ true

  last-IsKeyed : (cap : ℕ) (xs : List A) → is_unique (ids xs) ≡ true → IsKeyed cap (last_n cap xs)
  last-IsKeyed cap xs h = record {
    is_bounded = length-last_n cap xs;
    has_unique_ids =
        subst (λ ks. is_unique ks ≡ true)
          (sym (map-drop (λ x. text_of (key x)) (length xs - cap) xs))
          (unique-drop (length xs - cap) (ids xs) h);
  }

  -- A dict whose items stand under their own ids, each id once.
  record IsIndex (d : Dict A) : Type 0 where
    unique : is_unique (keys d) ≡ true
    own : ids (values d) ≡ keys d

  own-put :
      (k : String) (v : A) (d : Dict A)
      → text_of (key v) ≡ k
      → ids (values d) ≡ keys d
      → ids (values (put k v d)) ≡ keys (put k v d)
  unfolding put
  own-put k v [] f h = ground (arith, f)
  own-put k v ((i, w) ∷ d) f h = ground (arith, f, h, own-put k v d f, eq_iff i k)

  put-IsIndex :
      (k : String) (v : A) (d : Dict A) → text_of (key v) ≡ k → IsIndex d → IsIndex (put k v d)
  put-IsIndex k v d f h = record { unique = unique-put k v d h.unique; own = own-put k v d f h.own }

  module _ (accept : Dict A → A → Result Error (Option (String × A)))
      (fits : (d : Dict A) (x : A) (k : String) (v : A)
        → accept d x ≡ ok (some (k, v))
        → text_of (key v) ≡ k) where
    set-IsIndex :
        (d e : Dict A) (r : Result Error (Option (String × A)))
        → ((k : String) (v : A) → r ≡ ok (some (k, v)) → text_of (key v) ≡ k)
        → IsIndex d
        → set_accepted d r ≡ ok e
        → IsIndex e
    set-IsIndex d e (raised x) f h q = absurd (ok-ne-raised _ q refl)
    set-IsIndex d e (ok none) f h q = subst IsIndex (same refl q) h
    set-IsIndex d e (ok (some (k, v))) f h q =
        subst IsIndex (same refl q) (put-IsIndex k v d (f k v refl) h)

    collect-IsIndex :
        (xs : List A) (d t : Dict A) → IsIndex d → collect accept d xs ≡ ok t → IsIndex t
    collect-IsIndex [] d t h q = subst IsIndex (collect_nil accept d q) h
    collect-IsIndex (x ∷ xs) d t h q =
        let (e, p, rest) = step_ok accept d x xs q in
        collect-IsIndex xs e t (set-IsIndex d e (accept d x) (λ k v. fits d x k v) h p) rest

    last-IsIndex : (cap : ℕ) (d : Dict A) → IsIndex d → IsKeyed cap (last_n cap (values d))
    last-IsIndex cap d h = last-IsKeyed cap (values d) (ap is_unique h.own ∙ h.unique)

    -- what a merge by id returns
    pub merge-IsKeyed :
        (cap : ℕ) (existing new : Option (List A)) (out : List A)
        → is_unique (ids (items_or_empty existing)) ≡ true
        → merge_by_id accept cap existing new ≡ ok out
        → IsKeyed cap out
    unfolding merge_by_id
    merge-IsKeyed cap existing none out h q =
        subst (IsKeyed cap) (same refl q) (last-IsKeyed cap (items_or_empty existing) h)
    merge-IsKeyed cap existing (some []) out h q =
        subst (IsKeyed cap) (same refl q)
          (record { is_bounded = omega arith; has_unique_ids = unfold is_unique in refl })
    merge-IsKeyed cap existing (some (x ∷ xs)) out h q =
        let (d, p, e) = values_ok cap (collect accept [] (items_or_empty existing ++ x ∷ xs)) q in
        subst (IsKeyed cap) e (
          last-IsIndex cap d (
            collect-IsIndex (items_or_empty existing ++ x ∷ xs) [] d
              (record { unique = unfold is_unique in refl; own = refl }) p))

artifact_fits :
    (d : Dict ArtifactRef) (x : ArtifactRef) (k : String) (v : ArtifactRef)
    → accept_artifact d x ≡ ok (some (k, v))
    → text_of v.artifact_id ≡ k
unfolding accept_artifact
artifact_fits d x k v h = ground arith

memory_fits :
    (d : Dict MemoryRef) (x : MemoryRef) (k : String) (v : MemoryRef)
    → accept_memory d x ≡ ok (some (k, v))
    → text_of v.memory_id ≡ k
unfolding accept_memory
memory_fits d x k v h = ground arith

delegation_fits :
    (d : Dict DelegationEntry) (x : DelegationEntry) (k : String) (v : DelegationEntry)
    → accept_delegation d x ≡ ok (some (k, v))
    → text_of v.id ≡ k
unfolding accept_delegation
delegation_fits d x k v h = ground arith

-- From artifacts without an id twice, an accepted merge leaves at most 100 artifacts, no id twice,
-- whatever it brings: None, an empty list, or a list with ids that it repeats.
pub merge_artifacts-IsKeyed :
    (existing new : Option (List ArtifactRef)) (out : List ArtifactRef)
    → is_unique (map (λ x. text_of x.artifact_id) (items_or_empty existing)) ≡ true
    → merge_artifacts existing new ≡ ok out
    → IsKeyed (λ x. x.artifact_id) max_artifacts out
unfolding merge_artifacts
merge_artifacts-IsKeyed existing new out =
    merge-IsKeyed (λ x. x.artifact_id) accept_artifact artifact_fits max_artifacts existing new out

-- From memories without an id twice, an accepted merge leaves at most 32 memories, no id twice,
-- whatever it brings: None, an empty list, or a list with ids that it repeats.
pub merge_memory_refs-IsKeyed :
    (existing new : Option (List MemoryRef)) (out : List MemoryRef)
    → is_unique (map (λ x. text_of x.memory_id) (items_or_empty existing)) ≡ true
    → merge_memory_refs existing new ≡ ok out
    → IsKeyed (λ x. x.memory_id) max_memory_refs out
unfolding merge_memory_refs
merge_memory_refs-IsKeyed existing new out =
    merge-IsKeyed (λ x. x.memory_id) accept_memory memory_fits max_memory_refs existing new out

-- From delegations without an id twice, an accepted merge leaves at most 50 delegations, no id twice,
-- whatever it brings: None, an empty list, or a list with ids that it repeats.
pub merge_delegations-IsKeyed :
    (existing new : Option (List DelegationEntry)) (out : List DelegationEntry)
    → is_unique (map (λ x. text_of x.id) (items_or_empty existing)) ≡ true
    → merge_delegations existing new ≡ ok out
    → IsKeyed (λ x. x.id) max_delegations out
unfolding merge_delegations
merge_delegations-IsKeyed existing new out =
    merge-IsKeyed (λ x. x.id) accept_delegation delegation_fits max_delegations existing new out
