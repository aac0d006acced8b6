-- ===== src/Thread/Update.antt =====
-- What the reducers share: the exceptions, and dicts with a known set of keys. A key of a TypedDict
-- is a field that is `none` where the key is missing.
use poor_travel_agent.Base.{
  String, ◌≡◌, refl, Bool, true, false, Option, none, some, ◌&&◌, not, ◌==◌, eq_iff, arith, List,
  [], ◌∷◌, subst, ◌⊎◌, inl, inr, Bool-cases,
}
use poor_travel_agent.Base.Effect.{Result, ok, raised}

pub data Error : Type 0 where
  value_error key_error : Error

-- {**existing, **new} at one key
unfoldable pub overlay {ℓ} : {A : Type ℓ} → Option A → Option A → Option A
overlay old none = old
overlay old (some v) = some v

-- bool(d.get(key)) for a text
unfoldable pub is_given : Option String → Bool
is_given none = false
is_given (some s) = not (s == "")

-- old_value and new_value and old_value != new_value
unfoldable pub differ : Option String → Option String → Bool
unfolding is_given
differ (some a) (some b) = is_given (some a) && is_given (some b) && not (a == b)
differ _ _ = false

-- `d.get(key)` where the value may be None, too
abbrev pub flat : Option (Option String) → Option String
flat none = none
flat (some o) = o

-- An update that is refused when it differs leaves a given value as it was, unless it brings an
-- empty one.
pub overlay_same :
    (old new : Option String)
    → differ old new ≡ false
    → is_given old ≡ true
    → is_given (overlay old new) ≡ true
    → overlay old new ≡ old
unfolding differ is_given overlay
overlay_same none new h k m = cc
overlay_same (some a) none h k m = refl
overlay_same (some a) (some b) h k m = ground (arith, eq_iff a b)

-- A key is as it was, or it was not given, or it is given no longer.
abbrev pub Kept : Option String → Option String → Type 0
Kept old new = (new ≡ old) ⊎ (is_given old ≡ false) ⊎ (is_given new ≡ false)

pub overlay-Kept : (old new : Option String) → differ old new ≡ false → Kept old (overlay old new)
overlay-Kept old new h = elim (Bool-cases (is_given old)) [
  | inr out ↦ inr (inl out)
  | inl k ↦ elim (Bool-cases (is_given (overlay old new))) [
    | inr gone ↦ inr (inr gone)
    | inl m ↦ inl (overlay_same old new h k m)
  ]
]

module _ {S U : Type 0} (merge : S → U → Result Error S) where
  -- one update after another, the first refusal ending the row
  unfoldable pub reduce : S → List U → Result Error S
  reduce s [] = ok s
  reduce s (u ∷ us) = elim (merge s u) [ ok t ↦ reduce t us | raised e ↦ raised e ]

  reduce_nil : (s t : S) → reduce s [] ≡ ok t → s ≡ t
  unfolding reduce
  reduce_nil s t h = ground arith

  reduce_cons :
      (s t : S) (u : U) (us : List U)
      → reduce s (u ∷ us) ≡ ok t
      → (m : S) × (merge s u ≡ ok m) × (reduce m us ≡ ok t)
  unfolding reduce
  reduce_cons s t u us h = ground arith

  -- What every accepted update keeps, a row of them keeps.
  pub reduce_keeps :
      (P : S → Type 0)
      → ((s : S) (u : U) (t : S) → P s → merge s u ≡ ok t → P t)
      → (us : List U) (s t : S) → P s
      → reduce s us ≡ ok t
      → P t
  reduce_keeps P step [] s t h k = subst P (reduce_nil s t k) h
  reduce_keeps P step (u ∷ us) s t h k =
      let (m, e, rest) = reduce_cons s t u us k in reduce_keeps P step us m t (step s u m h e) rest
