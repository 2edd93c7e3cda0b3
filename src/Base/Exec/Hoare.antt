-- ===== src/Base/Exec/Hoare.antt =====
-- What a method leaves when it returns, and when it raises: a small program logic for the methods.
use mathlib.Core.Path.{◌≡◌, refl, ap, subst}
use mathlib.Core.Bool.{Bool, true, false}
use analysis_package.Base.Exec.{
  Result, ok, err, Exec, pure, raise, gets, guard, modify, continue, ◌>>=◌,
}

-- `Q` of the value and the state where the method returned, `X` of the state where it raised
abbrev pub Outcome : {S E A : Type 0} → (A → S → Type 0) → (S → Type 0) → Result E A × S → Type 0
Outcome Q X (ok a, s) = Q a s
Outcome Q X (err e, s) = X s

-- a method that starts where `P` holds
pub record Hoare {S E A : Type 0} (P : S → Type 0) (m : Exec S E A) (Q : A → S → Type 0)
    (X : S → Type 0) : Type 0 where
  pub run : (s : S) → P s → Outcome Q X (m s)

-- what holds before and, returned or raised, after
abbrev pub Preserves : {S E A : Type 0} → (S → Type 0) → Exec S E A → Type 0
Preserves P m = Hoare P m (λ a s. P s) P

module _ {S E A B : Type 0} {P : S → Type 0} {Q : A → S → Type 0} {R : B → S → Type 0}
    {X : S → Type 0} {m : Exec S E A} {f : A → Exec S E B} where
  pub Hoare-bind : Hoare P m Q X → ((a : A) → Hoare (Q a) (f a) R X) → Hoare P (m >>= f) R X
  Hoare-bind first then = record { run = λ s p. next (m s) (first.run s p) }
    where
      next : (r : Result E A × S) → Outcome Q X r → Outcome R X (continue r f)
      next (ok a, t) q = (then a).run t q
      next (err e, t) x = x

module _ {S E : Type 0} {P X : S → Type 0} where
  pub Hoare-guard :
      (b : Bool) (e : E) → ((s : S) → P s → X s) → Hoare P (guard b e) (λ u s. P s × (b ≡ true)) X
  Hoare-guard true e leave = record { run = λ s p. (p, refl) }
  Hoare-guard false e leave = record { run = leave }

module _ {S E : Type 0} {P : S → Type 0} where
  pub Preserves-guard : (b : Bool) (e : E) → Preserves P (guard b e)
  Preserves-guard true e = record { run = λ s p. p }
  Preserves-guard false e = record { run = λ s p. p }

module _ {S E A : Type 0} {P X : S → Type 0} where
  pub Hoare-gets : (f : S → A) → Hoare {E = E} P (gets f) (λ a s. P s × (a ≡ f s)) X
  Hoare-gets f = record { run = λ s p. (p, refl) }

  pub Hoare-pure :
      {Q : A → S → Type 0} (a : A) → ((s : S) → P s → Q a s) → Hoare {E = E} P (pure a) Q X
  Hoare-pure a holds = record { run = holds }

module _ {S E : Type 0} {P X : S → Type 0} {Q : S → Type 0} where
  pub Hoare-modify : (f : S → S) → ((s : S) → P s → Q (f s)) → Hoare {E = E} P (modify f) (λ u. Q) X
  Hoare-modify f step = record { run = step }

module _ {S E A : Type 0} {P : S → Type 0} where
  pub Preserves-gets : (f : S → A) → Preserves {E = E} P (gets f)
  Preserves-gets f = record { run = λ s p. p }

  pub Preserves-raise : (e : E) → Preserves {A = A} P (raise e)
  Preserves-raise e = record { run = λ s p. p }

  pub Preserves-state : {m : Exec S E A} → Preserves P m → (s : S) → P s → P (m s).1
  Preserves-state {m} keeps s p = either (m s) (keeps.run s p)
    where
      either : (r : Result E A × S) → Outcome (λ a. P) P r → P r.1
      either (ok a, t) q = q
      either (err e, t) q = q

module _ {S E A : Type 0} {P X : S → Type 0} {Q R : A → S → Type 0} {m : Exec S E A} where
  pub Hoare-weaken : Hoare P m Q X → ((a : A) (s : S) → Q a s → R a s) → Hoare P m R X
  Hoare-weaken first weaken = record { run = λ s p. either (m s) (first.run s p) }
    where
      either : (r : Result E A × S) → Outcome Q X r → Outcome R X r
      either (ok a, t) q = weaken a t q
      either (err e, t) x = x

module _ {S E A : Type 0} {P X : S → Type 0} {Q : A → S → Type 0} {m : Exec S E A} where
  -- a fact that does not read the state, for the proof of what follows
  pub Hoare-fact : {F : Type 0} → (F → Hoare P m Q X) → Hoare (λ s. P s × F) m Q X
  Hoare-fact rest = record { run = λ s h. (rest h.1).run s h.0 }

  -- what holds of the answer and the state where the method returned
  pub Hoare-returns : Hoare P m Q X → (s : S) → P s → (a : A) → (m s).0 ≡ ok a → Q a (m s).1
  Hoare-returns first s p a = either (m s) (first.run s p)
    where
      answer_or : A → Result E A → A
      answer_or b (ok c) = c
      answer_or b (err e) = b

      either : (r : Result E A × S) → Outcome Q X r → r.0 ≡ ok a → Q a r.1
      either (ok b, t) q e = subst (λ c. Q c t) (ap (answer_or b) e) q
      either (err e, t) x same = absurd (cc)
