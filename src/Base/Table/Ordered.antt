-- ===== src/Base/Table/Ordered.antt =====
-- ORDER BY: a query's rows in an order, and when the order leaves only one answer.
use native.Mathlib.Nat.{ℕ_set}
use mathlib.Core.Path.{◌≡◌, refl, ◌∙◌, ap, ap₂}
use mathlib.Core.Bool.{Bool, true}
use mathlib.Core.Logic.{∥∥₁_elim}
use mathlib.Core.List.{
  List, [], ◌∷◌, Mem, Perm, Permᴰ, Pairwise, mem-cons_self, mem-cons_of_mem, forall_mem-cons,
}
use mathlib.Core.List.Pairwise
use mathlib.Core.List.Perm
use Prim.Native.Nat.{suc}
use analysis_package.Base.Tests.{length}

module _ {ℓ} {A : Type ℓ} where
  length-permᴰ : {l r : List A} → Permᴰ l r → length l ≡ length r
  length-permᴰ Permᴰ.nil = refl
  length-permᴰ (Permᴰ.cons e p) = ap suc (length-permᴰ p)
  length-permᴰ (Permᴰ.swap e e') = refl
  length-permᴰ (Permᴰ.trans p q) = length-permᴰ p ∙ length-permᴰ q

  pub length-perm : {l r : List A} → Perm l r → length l ≡ length r
  length-perm {l} {r} p = ∥∥₁_elim p (ℕ_set (length l) (length r)) length-permᴰ

module _ {ℓ} {A : Type ℓ} (before : A → A → Bool) where
  abbrev Before : A → A → Type 0
  Before a b = before a b ≡ true

  -- `out` has the rows, each as often, and in the order
  pub record IsOrdered (rows out : List A) : Type ℓ where
    pub same_rows : Perm rows out
    pub in_order : Pairwise Before out

  -- an order that tells the rows of a list apart
  pub record TellsApart (rows : List A) : Type ℓ where
    pub reflexive : (a : A) → before a a ≡ true
    pub antisymmetric :
        (a b : A) → Mem a rows → Mem b rows → before a b ≡ true → before b a ≡ true → a ≡ b

  head-Before :
      {a : A} {l : List A}
      → before a a ≡ true
      → Pairwise Before (a ∷ l)
      → (x : A) → Mem x (a ∷ l)
      → Before a x
  head-Before {a} own (Pairwise.cons h _) = (forall_mem-cons (λ x. hlevel)).1 (own, h)

  tail_TellsApart : {a : A} {l : List A} → TellsApart (a ∷ l) → TellsApart l
  tail_TellsApart t = record {
    reflexive = t.reflexive;
    antisymmetric = λ a b m n. t.antisymmetric a b (mem-cons_of_mem _ m) (mem-cons_of_mem _ n);
  }

  ordered-eq_of_perm :
      {l r : List A} → TellsApart l → Pairwise Before l → Pairwise Before r → Perm l r → l ≡ r
  ordered-eq_of_perm {l = []} t sl sr p = Perm.nil-eq p
  ordered-eq_of_perm {l = a ∷ l} {r = []} t sl sr p = Perm.eq-nil p
  ordered-eq_of_perm {l = a ∷ l} {r = b ∷ r} t sl sr p =
      let in_l : Mem b (a ∷ l) = (Perm.mem_iff p).1 mem-cons_self in
      let in_r : Mem a (b ∷ r) = (Perm.mem_iff p).0 mem-cons_self in
      let heads : a ≡ b =
        t.antisymmetric a b mem-cons_self in_l (head-Before (t.reflexive a) sl b in_l)
          (head-Before (t.reflexive b) sr a in_r) in
      let tails = Perm.cons_inv (Perm.trans p (Perm.symm (Perm.cons' heads Perm.rfl))) in
      ap₂ ◌∷◌ heads (
        ordered-eq_of_perm {l = l} (tail_TellsApart t) (Pairwise.of_cons sl) (Pairwise.of_cons sr)
          tails)

  tells_of_perm : {l r : List A} → Perm l r → TellsApart l → TellsApart r
  tells_of_perm p t = record {
    reflexive = t.reflexive;
    antisymmetric = λ a b m n. t.antisymmetric a b ((Perm.mem_iff p).1 m) ((Perm.mem_iff p).1 n);
  }

  -- Where the order tells the rows apart, two answers to a query are the same.
  pub IsOrdered-unique :
      {rows out out' : List A}
      → TellsApart rows
      → IsOrdered rows out
      → IsOrdered rows out'
      → out ≡ out'
  IsOrdered-unique t o o' =
      ordered-eq_of_perm (tells_of_perm o.same_rows t) o.in_order o'.in_order
        (Perm.trans (Perm.symm o.same_rows) o'.same_rows)
