-- ===== src/Base/Effect.antt =====
-- Python functions that change a store and may raise: the exception comes back as a value, with the
-- store as it was left. A database transaction restores the store when its body raises.
pub mod Inverse
use poor_travel_agent.Base.{◌≡◌, refl, sym, subst, Bool, true, false, if◌then◌else◌}

pub data Result {ℓ} (E A : Type ℓ) : Type ℓ where
  ok : A → Result E A
  raised : E → Result E A

abbrev pub Op {ℓ} : Type ℓ → Type ℓ → Type ℓ → Type ℓ
Op E S A = S → Result E A × S

module _ {ℓ} {E S A : Type ℓ} where
  unfoldable pub pure : A → Op E S A
  pure a s = (ok a, s)

  unfoldable pub raise : E → Op E S A
  raise e s = (raised e, s)

  unfoldable pub lift : Result E A → Op E S A
  lift r s = (r, s)

  -- a read of the store
  unfoldable pub gets : (S → A) → Op E S A
  gets f s = (ok (f s), s)

  -- BEGIN IMMEDIATE; the body; COMMIT, or a rollback when the body raises
  abbrev settle : S → Result E A × S → Result E A × S
  settle old (ok a, s) = (ok a, s)
  settle old (raised e, s) = (raised e, old)

  unfoldable pub transaction : Op E S A → Op E S A
  transaction body s = settle s (body s)

  settle-keeps : (P : S → Type ℓ) (s : S) (x : Result E A × S) → P s → P x.1 → P (settle s x).1
  settle-keeps P s (ok a, t) h k = k
  settle-keeps P s (raised e, t) h k = h

  -- what holds before, and of the store that the body leaves, holds after the transaction
  pub transaction-keeps :
      (P : S → Type ℓ) (m : Op E S A) (s : S) → P s → P (m s).1 → P (transaction m s).1
  unfolding transaction
  transaction-keeps P m s = settle-keeps P s (m s)

  abbrev catch_result : (E → E) → Result E A × S → Result E A × S
  catch_result f (ok a, s) = (ok a, s)
  catch_result f (raised e, s) = (raised (f e), s)

  -- `except` clauses that raise another exception in the place of the first
  unfoldable pub rethrow : (E → E) → Op E S A → Op E S A
  rethrow f body s = catch_result f (body s)

module _ {ℓ} {E S A B : Type ℓ} where
  abbrev continue : Result E A → (A → Op E S B) → Op E S B
  continue (ok a) f s = f a s
  continue (raised e) f s = (raised e, s)

  infixl 10 ◌>>=◌ ◌>>◌
  -- opening this opens `pure`, `raise`, `lift` and `gets` too
  unfoldable pub ◌>>=◌ : Op E S A → (A → Op E S B) → Op E S B
  unfolding pure raise lift gets
  ◌>>=◌ m f s = let (r, s') = m s in continue r f s'

  abbrev pub ◌>>◌ : Op E S A → Op E S B → Op E S B
  m >> n = m >>= λ _. n

-- What an operation does to the store, one rule for each way to build one. `R` relates the store
-- before to the store after.
pub record Relates {ℓ} {E S A : Type ℓ} (R : S → S → Type ℓ) (m : Op E S A) : Type ℓ where
  pub at : (s : S) → R s (m s).1

pub record IsPreorder {ℓ} {S : Type ℓ} (R : S → S → Type ℓ) : Type ℓ where
  pub same : (s : S) → R s s
  pub after : (s t u : S) → R s t → R t u → R s u

module _ {ℓ} {E S A : Type ℓ} {R : S → S → Type ℓ} (p : IsPreorder R) where
  pub Relates-pure : (a : A) → Relates R (pure {E = E} a)
  unfolding pure
  Relates-pure a = record { at = p.same }

  pub Relates-raise : (e : E) → Relates R (raise {A = A} e)
  unfolding raise
  Relates-raise e = record { at = p.same }

  pub Relates-lift : (r : Result E A) → Relates R (lift {S = S} r)
  unfolding lift
  Relates-lift r = record { at = p.same }

  pub Relates-gets : (f : S → A) → Relates R (gets {E = E} f)
  unfolding gets
  Relates-gets f = record { at = p.same }

  pub Relates-if :
      (b : Bool) (m n : Op E S A)
      → (b ≡ true → Relates R m)
      → (b ≡ false → Relates R n)
      → Relates R (if b then m else n)
  Relates-if true m n km kn = km refl
  Relates-if false m n km kn = kn refl

  -- an operation that only reads
  pub Relates-unchanged : (m : Op E S A) → ((s : S) → (m s).1 ≡ s) → Relates R m
  Relates-unchanged m h = record { at = λ s. subst (R s) (sym (h s)) (p.same s) }

  settle-same : (s : S) (x : Result E A × S) → R s x.1 → R s (settle s x).1
  settle-same s (ok a, t) h = h
  settle-same s (raised e, t) h = p.same s

  pub Relates-transaction : (m : Op E S A) → Relates R m → Relates R (transaction m)
  unfolding transaction
  Relates-transaction m k = record { at = λ s. settle-same s (m s) (k.at s) }

  rethrow-same : (f : E → E) (s : S) (x : Result E A × S) → R s x.1 → R s (catch_result f x).1
  rethrow-same f s (ok a, t) h = h
  rethrow-same f s (raised e, t) h = h

  pub Relates-rethrow : (f : E → E) (m : Op E S A) → Relates R m → Relates R (rethrow f m)
  unfolding rethrow
  Relates-rethrow f m k = record { at = λ s. rethrow-same f s (m s) (k.at s) }

module _ {ℓ} {E S A B : Type ℓ} {R : S → S → Type ℓ} (p : IsPreorder R) where
  continue-after :
      (s : S) (x : Result E A × S) (f : A → Op E S B)
      → R s x.1
      → ((a : A) → Relates R (f a))
      → R s (continue x.0 f x.1).1
  continue-after s (ok a, t) f h k = p.after s t (f a t).1 h ((k a).at t)
  continue-after s (raised e, t) f h k = h

  pub Relates-bind :
      (m : Op E S A) (f : A → Op E S B)
      → Relates R m
      → ((a : A) → Relates R (f a))
      → Relates R (m >>= f)
  unfolding ◌>>=◌
  Relates-bind m f km kf = record { at = λ s. continue-after s (m s) f (km.at s) kf }
