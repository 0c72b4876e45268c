-- ===== src/Main/Filter/Members.antt =====
-- What is in a filtered list.
use mathlib.Core.List.{Mem-prop, mem-cons, mem-cons_self, mem-cons_of_mem, not-mem-nil}
use mathlib.Core.Bool.{Bool-discrete}
use mathlib.Core.HLevel.{hedberg}
use mathlib.Core.Logic.Or
use kcp_marketplace.Base.{
  ◌≡◌, sym, ◌∙◌, ap, subst, ◌↔◌, inl, inr, Bool, true, List, [], ◌∷◌, Mem, Bool-cases,
}
use kcp_marketplace.Main.Filter.Exact.{filter}

module _ {A : Type 0} (p : A → Bool) (a : A) where
  mem_of_mem-filter : (xs : List A) → Mem a (filter p xs) → Mem a xs
  unfolding filter
  mem_of_mem-filter [] m = m
  mem_of_mem-filter (x ∷ xs) m = elim (Bool-cases (p x)) [
    | inl yes_x ↦
        Or.elim Mem-prop (mem-cons.0 (rw yes_x at m))
          (λ same. subst (λ b. Mem b (x ∷ xs)) (sym same) mem-cons_self)
          (λ later. mem-cons_of_mem x (mem_of_mem-filter xs later))
    | inr no_x ↦ mem-cons_of_mem x (mem_of_mem-filter xs (rw no_x at m))
  ]

  holds_of_mem-filter : (xs : List A) → Mem a (filter p xs) → p a ≡ true
  unfolding filter
  holds_of_mem-filter [] m = absurd (not-mem-nil m)
  holds_of_mem-filter (x ∷ xs) m = elim (Bool-cases (p x)) [
    | inl yes_x ↦
        Or.elim (hedberg Bool-discrete _ _) (mem-cons.0 (rw yes_x at m)) (λ same. ap p same ∙ yes_x)
          (λ later. holds_of_mem-filter xs later)
    | inr no_x ↦ holds_of_mem-filter xs (rw no_x at m)
  ]

  mem-filter_of_mem : (xs : List A) → Mem a xs → p a ≡ true → Mem a (filter p xs)
  unfolding filter
  mem-filter_of_mem [] m holds = m
  mem-filter_of_mem (x ∷ xs) m holds =
      Or.elim Mem-prop (mem-cons.0 m)
        (λ same.
          let yes_x : p x ≡ true = ap p (sym same) ∙ holds in
          rw yes_x (subst (λ b. Mem b (x ∷ filter p xs)) (sym same) mem-cons_self))
        (λ later.
          let found = mem-filter_of_mem xs later holds in
          elim (Bool-cases (p x)) [
            | inl yes_x ↦ rw yes_x (mem-cons_of_mem x found)
            | inr no_x ↦ rw no_x found
          ])

  pub mem-filter : (xs : List A) → Mem a (filter p xs) ↔ (Mem a xs × (p a ≡ true))
  mem-filter xs = (
    λ m. (mem_of_mem-filter xs m, holds_of_mem-filter xs m),
    λ (m, holds). mem-filter_of_mem xs m holds,
  )
