-- ===== src/Base/Sort.antt =====
-- `sort.Slice`, and the order in which Go's `range` visits a map.
use mathlib.Core.Bool.{Bool, true, false, Bool-discrete}
use mathlib.Core.HLevel.{hedberg}
use mathlib.Core.List.{
  List, [], ◌∷◌, Mem, Perm, Pairwise, mem-cons, mem-cons_self, mem-cons_of_mem, not-mem-nil,
}
use mathlib.Core.List.Pairwise
use mathlib.Core.List.Perm
use mathlib.Core.Logic.{inl, inr}
use mathlib.Core.Logic.Or
use mathlib.Core.Path.{◌≡◌, ap₂}
use kcp_marketplace.Base.Tests.{if◌then◌else◌, Bool-cases}

-- `range` visits the entries of a map in an order that the language leaves open: a parameter, of
-- which only this is known.
pub record RangeOrder {ℓ} (A : Type ℓ) : Type ℓ where
  pub visit : List A → List A
  pub visit-perm : (xs : List A) → Perm (visit xs) xs

abbrev pub in_order {ℓ} : {A : Type ℓ} → RangeOrder A
in_order = record { visit = λ xs. xs; visit-perm = λ xs. Perm.rfl }

-- What `sort.Slice` wants of its test: a strict weak order.
pub record IsLess {ℓ} {A : Type ℓ} (less : A → A → Bool) : Type ℓ where
  pub asymm : (a b : A) → less a b ≡ true → less b a ≡ false
  pub negtrans : (a b c : A) → less b a ≡ false → less c b ≡ false → less c a ≡ false

module _ {ℓ} {A : Type ℓ} (less : A → A → Bool) where
  insert_sorted : A → List A → List A
  insert_sorted x [] = x ∷ []
  insert_sorted x (y ∷ ys) = if less y x then y ∷ insert_sorted x ys else x ∷ y ∷ ys

  -- `sort.Slice(s, less)`. The library's sort may put equal elements in any order; as each input
  -- here comes in an unknown order (`RangeOrder`), this stable one has the same results.
  unfoldable pub sort_slice : List A → List A
  unfolding insert_sorted
  sort_slice [] = []
  sort_slice (x ∷ xs) = insert_sorted x (sort_slice xs)

  -- No element is less than one before it.
  abbrev pub IsSorted : List A → Type ℓ
  IsSorted = Pairwise (λ a b. less b a ≡ false)

  insert_sorted-perm : (x : A) (ys : List A) → Perm (insert_sorted x ys) (x ∷ ys)
  unfolding insert_sorted
  insert_sorted-perm x [] = Perm.rfl
  insert_sorted-perm x (y ∷ ys) = elim (Bool-cases (less y x)) [
    | inl e ↦
        rw (e, insert_sorted)
          (Perm.trans (Perm.cons y (insert_sorted-perm x ys)) (Perm.swap x y ys))
    | inr e ↦ rw (e, insert_sorted) Perm.rfl
  ]

  pub sort_slice-perm : (xs : List A) → Perm (sort_slice xs) xs
  unfolding sort_slice
  sort_slice-perm [] = Perm.rfl
  sort_slice-perm (x ∷ xs) =
      Perm.trans (insert_sorted-perm x (sort_slice xs)) (Perm.cons x (sort_slice-perm xs))

  is_false-prop : (b : Bool) → IsProp (b ≡ false)
  is_false-prop b = hedberg Bool-discrete b false

  module _ (order : IsLess less) where
    open order use {asymm, negtrans}

    less_irrefl : (a : A) → less a a ≡ false
    less_irrefl a = elim (Bool-cases (less a a)) [ inl e ↦ asymm a a e | inr e ↦ e ]

    insert_sorted-IsSorted : (x : A) (ys : List A) → IsSorted ys → IsSorted (insert_sorted x ys)
    unfolding insert_sorted
    insert_sorted-IsSorted x [] s = Pairwise.cons (λ b h. absurd (not-mem-nil h)) Pairwise.nil
    insert_sorted-IsSorted x (y ∷ ys) (Pairwise.cons below s) = elim (Bool-cases (less y x)) [
      | inl e ↦
          rw (e, insert_sorted)
            (Pairwise.cons
              (λ b h.
                Or.elim (is_false-prop _)
                  (mem-cons.0 ((Perm.mem_iff (insert_sorted-perm x ys)).0 h))
                  (λ p. rw p (asymm y x e)) (below b))
              (insert_sorted-IsSorted x ys s))
      | inr e ↦
          rw (e, insert_sorted)
            (Pairwise.cons
              (λ b h.
                Or.elim (is_false-prop _) (mem-cons.0 h) (λ p. rw p e)
                  (λ later. negtrans x y b e (below b later)))
              (Pairwise.cons below s))
    ]

    pub sort_slice-IsSorted : (xs : List A) → IsSorted (sort_slice xs)
    unfolding sort_slice
    sort_slice-IsSorted [] = Pairwise.nil
    sort_slice-IsSorted (x ∷ xs) = insert_sorted-IsSorted x (sort_slice xs) (sort_slice-IsSorted xs)

    -- Elements of which neither is less are one element.
    abbrev pub IsTieFree : List A → Type ℓ
    IsTieFree xs =
        (a : A) → Mem a xs → (b : A) → Mem b xs → less a b ≡ false → less b a ≡ false → a ≡ b

    head-le : (a b : A) (l : List A) → IsSorted (a ∷ l) → Mem b (a ∷ l) → less b a ≡ false
    head-le a b l (Pairwise.cons below s) h =
        Or.elim (is_false-prop _) (mem-cons.0 h) (λ p. rw p (less_irrefl a)) (below b)

    -- A list with no ties has one sorted permutation.
    pub IsSorted-eq_of_perm :
        (l r : List A) → IsTieFree l → IsSorted l → IsSorted r → Perm l r → l ≡ r
    IsSorted-eq_of_perm [] r _ _ _ p = Perm.nil-eq p
    IsSorted-eq_of_perm (a ∷ l) [] _ _ _ p = Perm.eq-nil p
    IsSorted-eq_of_perm (a ∷ l) (b ∷ r) free sl sr p =
        let b_in_l = (Perm.mem_iff p).1 mem-cons_self in
        let a_in_r = (Perm.mem_iff p).0 mem-cons_self in
        let heads : a ≡ b =
          free a mem-cons_self b b_in_l (head-le b a r sr a_in_r) (head-le a b l sl b_in_l) in
        let tails = Perm.cons_inv (Perm.trans p (Perm.symm (Perm.cons' heads Perm.rfl))) in
        ap₂ ◌∷◌ heads (
          IsSorted-eq_of_perm l r
            (λ x hx y hy. free x (mem-cons_of_mem a hx) y (mem-cons_of_mem a hy))
            (Pairwise.of_cons sl) (Pairwise.of_cons sr) tails)

    -- The result does not depend on the order in which the elements come.
    pub sort_slice-eq_of_perm :
        (xs ys : List A) → IsTieFree xs → Perm xs ys → sort_slice xs ≡ sort_slice ys
    sort_slice-eq_of_perm xs ys free p =
        let px = sort_slice-perm xs in
        IsSorted-eq_of_perm (sort_slice xs) (sort_slice ys)
          (λ a ha b hb. free a ((Perm.mem_iff px).0 ha) b ((Perm.mem_iff px).0 hb))
          (sort_slice-IsSorted xs) (sort_slice-IsSorted ys)
          (Perm.trans px (Perm.trans p (Perm.symm (sort_slice-perm ys))))
