-- ===== src/Base/Effect/Inverse.antt =====
-- What the end of an operation that returned says of its parts.
use poor_travel_agent.Base.{◌≡◌, refl, sym, ap, Bool, true, false, if◌then◌else◌}
use poor_travel_agent.Base.Effect.{
  Result, ok, raised, Op, raise, lift, transaction, rethrow, settle, catch_result, continue, ◌>>=◌,
}

pub ok-ne-raised {ℓ} : {E A : Type ℓ} {a : A} {e : E} (r : Result E A) → r ≡ ok a → r ≡ raised e → ⊥
ok-ne-raised r h k = cc

module _ {ℓ} {E S A B : Type ℓ} where
  continue_ok :
      (x : Result E A × S) (f : A → Op E S B) {b : B} {t : S}
      → continue x.0 f x.1 ≡ (ok b, t)
      → (a : A) × (u : S) × (x ≡ (ok a, u)) × (f a u ≡ (ok b, t))
  continue_ok (ok a, u) f h = (a, u, refl, h)
  continue_ok (raised e, u) f {b} {t} h = absurd (ok-ne-raised _ (ap (λ y. y.0) h) refl)

  pub bind_ok :
      (m : Op E S A) (f : A → Op E S B) (s : S) {b : B} {t : S}
      → (m >>= f) s ≡ (ok b, t)
      → (a : A) × (u : S) × (m s ≡ (ok a, u)) × (f a u ≡ (ok b, t))
  unfolding ◌>>=◌
  bind_ok m f s h = continue_ok (m s) f h

module _ {ℓ} {E S A : Type ℓ} where
  pub lift_ok :
      (r : Result E A) (s : S) {a : A} {t : S} → lift r s ≡ (ok a, t) → (r ≡ ok a) × (t ≡ s)
  unfolding lift
  lift_ok r s h = (ap (λ x. x.0) h, sym (ap (λ x. x.1) h))

  settle_ok : (s : S) (x : Result E A × S) {a : A} {t : S} → settle s x ≡ (ok a, t) → x ≡ (ok a, t)
  settle_ok s (ok b, u) h = h
  settle_ok s (raised e, u) {a} h = absurd (ok-ne-raised _ (ap (λ y. y.0) h) refl)

  pub transaction_ok :
      (m : Op E S A) (s : S) {a : A} {t : S} → transaction m s ≡ (ok a, t) → m s ≡ (ok a, t)
  unfolding transaction
  transaction_ok m s h = settle_ok s (m s) h

  caught_ok :
      (f : E → E) (x : Result E A × S) {a : A} {t : S}
      → catch_result f x ≡ (ok a, t)
      → x ≡ (ok a, t)
  caught_ok f (ok b, u) h = h
  caught_ok f (raised e, u) {a} h = absurd (ok-ne-raised _ (ap (λ y. y.0) h) refl)

  pub rethrow_ok :
      (f : E → E) (m : Op E S A) (s : S) {a : A} {t : S}
      → rethrow f m s ≡ (ok a, t)
      → m s ≡ (ok a, t)
  unfolding rethrow
  rethrow_ok f m s h = caught_ok f (m s) h

-- A guard in front of a body that returned did not raise.
pub unless_ok {ℓ} :
    {E S A : Type ℓ} (b : Bool) (e : E) (m : Op E S A) (s : S) {a : A} {t : S}
    → (if b then raise e else m) s ≡ (ok a, t)
    → m s ≡ (ok a, t)
unfolding raise
unless_ok true e m s h = absurd (ok-ne-raised _ (ap (λ x. x.0) h) refl)
unless_ok false e m s h = h

-- The same for a bind at the head of a block, in the form that a proof chains.
module _ {ℓ κ} {E S A B : Type ℓ} {P : Type κ} where
  pub after_bind :
      (m : Op E S A) (f : A → Op E S B) (s : S) {b : B} {t : S}
      → (m >>= f) s ≡ (ok b, t)
      → ((a : A) (u : S) → m s ≡ (ok a, u) → f a u ≡ (ok b, t) → P)
      → P
  after_bind m f s h k = let (a, u, p, q) = bind_ok m f s h in k a u p q

  pub after_lift :
      (r : Result E A) (f : A → Op E S B) (s : S) {b : B} {t : S}
      → (lift r >>= f) s ≡ (ok b, t)
      → ((a : A) → r ≡ ok a → f a s ≡ (ok b, t) → P)
      → P
  unfolding ◌>>=◌
  after_lift (ok a) f s h k = k a refl h
  after_lift (raised e) f s h k = absurd (ok-ne-raised _ (ap (λ x. x.0) h) refl)
