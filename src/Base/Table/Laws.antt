-- ===== src/Base/Table/Laws.antt =====
-- What the statements on a table do to its rows and to later reads.
use mathlib.Core.Option
use analysis_package.Base.Tests.{if◌then◌else◌, Bool-cases}
use analysis_package.Base.Table.{All, find, count_where, update_where, or_else}
use Prim.Native.Nat.{◌+◌, ◌≤◌, ◌<◌}
use mathlib.Core.Path.{◌≡◌, refl}
use mathlib.Core.Bool.{Bool, true, false, not, ◌&&◌}
use mathlib.Core.Logic.{inl, inr}
use mathlib.Core.Option.{Option, none, some}
use mathlib.Core.List.{List, [], ◌∷◌, ◌++◌}
use native.Mathlib.Omega.{arith}

module _ {ℓ} {A : Type ℓ} where
  -- A read after an UPDATE that keeps what the read tests sees the updated row.
  pub find-update :
      (q p : A → Bool) (f : A → A) (l : List A)
      → ((a : A) → q (f a) ≡ q a)
      → find q (update_where p f l) ≡ Option.map (λ (a : A). if p a then f a else a) (find q l)
  unfolding find update_where
  find-update q p f [] keeps = refl
  find-update q p f (x ∷ xs) keeps = ground (arith, keeps x, find-update q p f xs keeps)

  pub find-append :
      (p : A → Bool) (l : List A) (x : A)
      → find p (l ++ x ∷ []) ≡ or_else (find p l) (if p x then some x else none)
  unfolding find
  find-append p [] x = ground arith
  find-append p (y ∷ l) x = ground (arith, find-append p l x)

  -- What a read returns passes the read's test.
  pub find_holds : (p : A → Bool) (l : List A) (a : A) → find p l ≡ some a → p a ≡ true
  unfolding find
  find_holds p [] a h = ground arith
  find_holds p (x ∷ xs) a h = ground (arith, find_holds p xs a)

  pub find_of_count-zero : (p : A → Bool) (l : List A) → count_where p l ≡ 0 → find p l ≡ none
  unfolding find count_where
  find_of_count-zero p [] h = refl
  find_of_count-zero p (x ∷ xs) h = ground (arith, find_of_count-zero p xs)

  pub count-zero_of_find : (p : A → Bool) (l : List A) → find p l ≡ none → count_where p l ≡ 0
  unfolding find count_where
  count-zero_of_find p [] h = refl
  count-zero_of_find p (x ∷ xs) h = ground (arith, count-zero_of_find p xs)

  pub update_of_count-zero :
      (p : A → Bool) (f : A → A) (l : List A) → count_where p l ≡ 0 → update_where p f l ≡ l
  unfolding update_where count_where
  update_of_count-zero p f [] h = refl
  update_of_count-zero p f (x ∷ xs) h = ground (arith, update_of_count-zero p f xs)

module _ {ℓ κ} {A : Type ℓ} (P : A → Type κ) where
  pub All-find : (p : A → Bool) (l : List A) {a : A} → All P l → find p l ≡ some a → P a
  unfolding find
  All-find p [] h e = absurd (ground arith)
  All-find p (x ∷ xs) {a} h e = elim (Bool-cases (p x)) [
    | inl t ↦ let e' : some x ≡ some a = (rw (← e, t) refl) in subst_all e' h.0
    | inr t ↦ All-find p xs h.1 (ground arith)
  ]
    where
      subst_all : {y : A} → some x ≡ some y → P x → P y
      subst_all q px = rw (← Option.some-injective _ _ q) px

  pub All-update :
      (p : A → Bool) (f : A → A) (l : List A)
      → ((a : A) → P a → p a ≡ true → P (f a))
      → All P l
      → All P (update_where p f l)
  unfolding update_where
  All-update p f [] keeps h = tt
  All-update p f (x ∷ xs) keeps h = elim (Bool-cases (p x)) [
    | inl t ↦ rw t (keeps x h.0 t, All-update p f xs keeps h.1)
    | inr t ↦ rw t (h.0, All-update p f xs keeps h.1)
  ]

  pub All-append_one : (l : List A) (x : A) → All P l → P x → All P (l ++ x ∷ [])
  All-append_one [] x h px = (px, tt)
  All-append_one (y ∷ l) x h px = (h.0, All-append_one l x h.1 px)

module _ {ℓ} {A : Type ℓ} where
  -- COUNT = 0 says that no row passes the test.
  pub All-of_count-zero :
      (p : A → Bool) (l : List A) → count_where p l ≡ 0 → All (λ a. p a ≡ false) l
  unfolding count_where
  All-of_count-zero p [] h = tt
  All-of_count-zero p (x ∷ xs) h = elim (Bool-cases (p x)) [
    | inl t ↦ absurd (ground arith)
    | inr t ↦ (t, All-of_count-zero p xs (ground arith))
  ]

module _ {ℓ κ μ} {A : Type ℓ} (P : A → Type κ) (Q : A → Type μ) where
  pub All-map : (l : List A) → ((a : A) → P a → Q a) → All P l → All Q l
  All-map [] f h = tt
  All-map (x ∷ xs) f h = (f x h.0, All-map xs f h.1)

module _ {ℓ κ μ ν} {A : Type ℓ} (P : A → Type κ) (Q : A → Type μ) (R : A → Type ν) where
  pub All-zip : (l : List A) → ((a : A) → P a → Q a → R a) → All P l → All Q l → All R l
  All-zip [] f h k = tt
  All-zip (x ∷ xs) f h k = (f x h.0 k.0, All-zip xs f h.1 k.1)

module _ {ℓ} {A : Type ℓ} where
  pub count_and_zero_rest :
      (p q : A → Bool) (l : List A) → count_where p l ≡ 0 → count_where (λ x. p x && q x) l ≡ 0
  unfolding count_where
  count_and_zero_rest p q [] h = refl
  count_and_zero_rest p q (x ∷ xs) h = ground (arith, count_and_zero_rest p q xs)

  -- Where at most one row passes `p`, the row that a read finds decides whether one passes `p` and
  -- `q`.
  pub count_and_zero :
      (p q : A → Bool) (l : List A) {a : A}
      → count_where p l ≤ 1
      → find p l ≡ some a
      → q a ≡ false
      → count_where (λ x. p x && q x) l ≡ 0
  unfolding find count_where
  count_and_zero p q [] u e h = cc
  count_and_zero p q (x ∷ xs) {a} u e h = elim (Bool-cases (p x)) [
    | inl t ↦ ground (arith, count_and_zero_rest p q xs)
    | inr t ↦ ground (arith, count_and_zero p q xs {a = a})
  ]

  pub count_and_pos :
      (p q : A → Bool) (l : List A) {a : A}
      → find p l ≡ some a
      → q a ≡ true
      → 0 < count_where (λ x. p x && q x) l
  unfolding find count_where
  count_and_pos p q [] e h = cc
  count_and_pos p q (x ∷ xs) {a} e h = ground (arith, count_and_pos p q xs {a = a})

  pub count-append :
      (p : A → Bool) (l : List A) (x : A)
      → count_where p (l ++ x ∷ []) ≡ count_where p l + (if p x then 1 else 0)
  unfolding count_where
  count-append p [] x = ground arith
  count-append p (y ∷ l) x = ground (arith, count-append p l x)

  pub count-update :
      (q p : A → Bool) (f : A → A) (l : List A)
      → ((a : A) → q (f a) ≡ q a)
      → count_where q (update_where p f l) ≡ count_where q l
  unfolding count_where update_where
  count-update q p f [] keeps = refl
  count-update q p f (x ∷ xs) keeps = ground (arith, keeps x, count-update q p f xs keeps)

  pub count_split :
      (p q : A → Bool) (l : List A)
      → count_where p l ≡ count_where (λ x. p x && q x) l + count_where (λ x. p x && not (q x)) l
  unfolding count_where
  count_split p q [] = refl
  count_split p q (x ∷ xs) = ground (arith, count_split p q xs)

  -- Whatever an UPDATE writes, the rows that it does not reach are still counted.
  pub count-update-ge :
      (p q : A → Bool) (f : A → A) (l : List A)
      → count_where (λ x. p x && not (q x)) l ≤ count_where p (update_where q f l)
  unfolding count_where update_where
  count-update-ge p q f [] = omega arith
  count-update-ge p q f (x ∷ xs) = ground (arith, count-update-ge p q f xs)

  pub count_comm :
      (p q : A → Bool) (l : List A)
      → count_where (λ x. p x && q x) l ≡ count_where (λ x. q x && p x) l
  unfolding count_where
  count_comm p q [] = refl
  count_comm p q (x ∷ xs) = ground (arith, count_comm p q xs)

  pub count-update_mono :
      (p q : A → Bool) (f : A → A) (l : List A)
      → ((a : A) → p a ≡ true → p (f a) ≡ true)
      → count_where p l ≤ count_where p (update_where q f l)
  unfolding count_where update_where
  count-update_mono p q f [] keeps = omega arith
  count-update_mono p q f (x ∷ xs) keeps = ground (arith, keeps x, count-update_mono p q f xs keeps)
