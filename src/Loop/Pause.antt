-- ===== src/Loop/Pause.antt =====
-- Outcomes of runs: the pause after three equal errors, and the way out of it.
use poor_travel_agent.Base.{
  ℕ, zero, suc, ◌+◌, ◌≤◌, String, ◌≡◌, ap, Bool, true, false, Option, none, some, List, [], ◌∷◌,
  arith, eq_iff, leb, Bool-cases, inl, inr, subst, sym, ◌∙◌, str-eq→eq, ◌==◌, not, ◌&&◌, ◌||◌,
}
use poor_travel_agent.Base.Effect.{ok, raise, transaction}
use poor_travel_agent.Loop.Tables.{Settings, Db}
use poor_travel_agent.Loop.Runs.{
  next_count, counted, register_outcome, is_enabled, set_enabled, store_enabled,
}

-- the settings after a row of outcomes, `none` for a run without an error
unfoldable pub outcomes : Settings → List (Option String) → Settings
outcomes s [] = s
outcomes s (e ∷ es) = outcomes (register_outcome e s).1 es

-- two more outcomes with this error, right at the start
abbrev two_more : String → List (Option String) → Bool
two_more error (some a ∷ some b ∷ _) = error == a && error == b
two_more error _ = false

-- three outcomes in a row with one error
unfoldable pub has_three : List (Option String) → Bool
has_three [] = false
has_three (none ∷ es) = has_three es
has_three (some e ∷ es) = two_more e es || has_three es

-- the outcomes that a count stands for
abbrev repeated : ℕ → String → List (Option String) → List (Option String)
repeated zero error es = es
repeated (suc zero) error es = some error ∷ es
repeated (suc (suc _)) error es = some error ∷ some error ∷ es

abbrev settings_of : String → String → String → ℕ → Settings
settings_of enabled mode error count = record {
  enabled = some enabled;
  mode = some mode;
  consecutive_error_code = some error;
  consecutive_error_count = some count;
}

off_counted :
    (s : Settings) (error : String) (count : ℕ) (paused : Bool)
    → is_enabled s ≡ false
    → is_enabled (counted s error count paused) ≡ false
unfolding is_enabled
off_counted s error count true h = ground arith
off_counted s error count false h = h

-- A loop that is not enabled is not enabled by outcomes.
stays_off :
    (es : List (Option String)) (s : Settings)
    → is_enabled s ≡ false
    → is_enabled (outcomes s es) ≡ false
unfolding outcomes register_outcome
stays_off [] s h = h
stays_off (none ∷ es) s h = stays_off es (register_outcome none s).1 (unfold is_enabled in h)
stays_off (some e ∷ es) s h =
    stays_off es (register_outcome (some e) s).1
      (off_counted s e (next_count s e) (leb 3 (next_count s e)) h)

-- One more outcome with the same error, and one with another.
again :
    (mode error : String) (n : ℕ)
    → (register_outcome (some error) (settings_of "1" mode error n)).1
      ≡ counted (settings_of "1" mode error n) error (n + 1) (leb 3 (n + 1))
unfolding register_outcome
again mode error n =
    let same : next_count (settings_of "1" mode error n) error ≡ n + 1 =
      ground (arith, eq_iff error error) in
    ap (λ k. counted (settings_of "1" mode error n) error k (leb 3 k)) same

another :
    (mode error e : String) (n : ℕ)
    → (error == e) ≡ false
    → (register_outcome (some e) (settings_of "1" mode error n)).1 ≡ settings_of "1" mode e 1
unfolding register_outcome
another mode error e n h =
    let one : next_count (settings_of "1" mode error n) e ≡ 1 = ground (arith, h) in
    ap (λ k. counted (settings_of "1" mode error n) e k (leb 3 k)) one

-- the claim at a count that has been reached
abbrev Counts : List (Option String) → String → String → ℕ → Type 0
Counts es mode error n =
    is_enabled (outcomes (settings_of "1" mode error n) es) ≡ not (has_three (repeated n error es))

after_none :
    (es : List (Option String)) (mode error : String) (n : ℕ)
    → Counts es mode "" 0
    → Counts (none ∷ es) mode error n
unfolding outcomes register_outcome has_three
after_none es mode error zero h = h
after_none es mode error (suc zero) h = h
after_none es mode error (suc (suc n)) h = h

enabled_settings :
    (mode : String) (db s : Db) (a : Unit {0})
    → set_enabled true mode db ≡ (ok a, s)
    → s.settings ≡ settings_of "1" mode "" 0
unfolding set_enabled store_enabled raise transaction
enabled_settings mode db s a h = ground arith

paused_is_off :
    (error : String) → is_enabled (counted (settings_of "1" "" error 2) error 3 true) ≡ false
unfolding is_enabled
paused_is_off error = ground arith

three_found :
    (error : String) (es : List (Option String))
    → false ≡ not (has_three (some error ∷ some error ∷ some error ∷ es))
unfolding has_three
three_found error es = ground (arith, eq_iff error error)

after_same :
    (es : List (Option String)) (mode error : String) (n : ℕ)
    → ((k : ℕ) → k ≤ 2 → Counts es mode error k)
    → n ≤ 2
    → Counts (some error ∷ es) mode error n
unfolding outcomes
after_same es mode error zero k h =
    ap (λ x. is_enabled (outcomes x es)) (again mode error 0) ∙ k 1 (omega arith)
after_same es mode error (suc zero) k h =
    ap (λ x. is_enabled (outcomes x es)) (again mode error 1) ∙ k 2 (omega arith)
after_same es mode error (suc (suc zero)) k h =
    ap (λ x. is_enabled (outcomes x es)) (again mode error 2)
    ∙ stays_off es (counted (settings_of "1" mode error 2) error 3 true) (paused_is_off error)
    ∙ three_found error es
after_same es mode error (suc (suc (suc n))) k h = absurd (omega (arith, h))

after_other :
    (es : List (Option String)) (mode error e : String) (n : ℕ)
    → (error == e) ≡ false
    → Counts es mode e 1
    → n ≤ 2
    → Counts (some e ∷ es) mode error n
unfolding outcomes has_three
after_other es mode error e zero d k h =
    ap (λ x. is_enabled (outcomes x es)) (another mode error e 0 d) ∙ k
after_other es mode error e (suc zero) d k h =
    ap (λ x. is_enabled (outcomes x es)) (another mode error e 1 d) ∙ k ∙ ground (arith, d)
after_other es mode error e (suc (suc n)) d k h =
    ap (λ x. is_enabled (outcomes x es)) (another mode error e (suc (suc n)) d)
    ∙ k
    ∙ ground (arith, d)

counts : (es : List (Option String)) (mode error : String) (n : ℕ) → n ≤ 2 → Counts es mode error n
unfolding outcomes
counts [] mode error zero h = unfold is_enabled has_three in ground arith
counts [] mode error (suc zero) h = unfold is_enabled has_three in ground arith
counts [] mode error (suc (suc n)) h = unfold is_enabled has_three in ground arith
counts (none ∷ es) mode error n h = after_none es mode error n (counts es mode "" 0 (omega arith))
counts (some e ∷ es) mode error n h = elim (Bool-cases (error == e)) [
  | inl same ↦
      subst (λ x. Counts (some x ∷ es) mode error n) (str-eq→eq error e same)
        (after_same es mode error n (λ k below. counts es mode error k below) h)
  | inr other ↦ after_other es mode error e n other (counts es mode e 1 (omega arith)) h
]

-- A loop that `set_enabled` has just enabled, in any mode that it supports, is found disabled after a
-- row of outcomes exactly when three of them in a row had one error; a run without an error counts
-- as an outcome that breaks the row.
pub pauses_on_three :
    (mode : String) (db s : Db) (a : Unit {0}) (es : List (Option String))
    → set_enabled true mode db ≡ (ok a, s)
    → is_enabled (outcomes s.settings es) ≡ not (has_three es)
pauses_on_three mode db s a es h =
    subst (λ x. is_enabled (outcomes x es) ≡ not (has_three es))
      (sym (enabled_settings mode db s a h)) (counts es mode "" 0 (omega arith))
