-- ===== src/Main/Filter/Exact.antt =====
-- What the filters of cmd/marketplace-vws/main.go let through, whatever the order of the calls.
use mathlib.Core.List.{mem-cons_self, mem-cons_of_mem}
use mathlib.Core.List.Perm
use kcp_marketplace.Base.{
  subst, ℕ, zero, suc, ◌+◌, ◌≡◌, ◌⊎◌, inl, inr, refl, sym, ◌∙◌, ap, Bool, true, false, none, some,
  arith, List, [], ◌∷◌, Mem, if◌then◌else◌, Bool-cases, Option-cases, Any, Any-imp,
}
use kcp_marketplace.Errors.{Ctx, Error, Result, ok, err}
use kcp_marketplace.Main.Filter.{
  Call, Schedule, Group, indices, complete_all, get_elem?, kept, filter_by,
}
use kcp_marketplace.Main.Filter.Fanout.{run_keeps, run_fails, run_error}

-- The elements that a test allows, in their order.
unfoldable pub filter {ℓ} : {A : Type ℓ} → (A → Bool) → List A → List A
filter allowed [] = []
filter allowed (x ∷ xs) = let rest = filter allowed xs in if allowed x then x ∷ rest else rest

-- A predicate that every element of a list has.
abbrev pub Each {ℓ} : {A : Type ℓ} → (A → Type 0) → List A → Type 0
Each P [] = Unit
Each P (x ∷ xs) = P x × Each P xs

-- The elements from an index on: the index of the first of them is that index.
mem-indices {ℓ} :
    {A : Type ℓ} (xs : List A) (i j : ℕ) (a : A)
    → get_elem? xs j ≡ some a
    → Mem (i + j) (indices i xs)
unfolding get_elem? indices
mem-indices [] i j a at = absurd (cc)
mem-indices (x ∷ xs) i zero a at =
    let e : i + 0 ≡ i = omega arith in subst (λ k. Mem k (indices i (x ∷ xs))) (sym e) mem-cons_self
mem-indices (x ∷ xs) i (suc j) a at =
    mem-cons_of_mem i
      (subst (λ k. Mem k (indices (suc i) xs)) (omega arith) (mem-indices xs (suc i) j a at))

-- Two ways to say which elements stay.
kept-filter {ℓ} :
    {A : Type ℓ} (keep : ℕ → Bool) (allowed : A → Bool) (i : ℕ) (xs : List A)
    → ((j : ℕ) (a : A) → get_elem? xs j ≡ some a → keep (i + j) ≡ allowed a)
    → kept keep i xs ≡ filter allowed xs
unfolding kept filter get_elem?
kept-filter keep allowed i [] h = refl
kept-filter keep allowed i (x ∷ xs) h =
    let here : keep i ≡ allowed x = ap keep (omega arith) ∙ h zero x refl in
    let rest =
      kept-filter keep allowed (suc i) xs (λ j a at. ap keep (omega arith) ∙ h (suc j) a at) in
    rw here (rw rest refl)

-- What holds of each element that may stay holds of each one that stays.
kept_all :
    {A : Type 0} (P : A → Type 0) (keep : ℕ → Bool) (i : ℕ) (xs : List A)
    → ((j : ℕ) (a : A) → get_elem? xs j ≡ some a → keep (i + j) ≡ true → P a)
    → Each P (kept keep i xs)
unfolding kept get_elem?
kept_all P keep i [] h = tt
kept_all P keep i (x ∷ xs) h =
    let rest =
      kept_all P keep (suc i) xs (λ j a at yes_i. h (suc j) a at (ap keep (omega arith) ∙ yes_i)) in
    elim (Bool-cases (keep i)) [
      | inl stays ↦ rw stays (h zero x refl (ap keep (omega arith) ∙ stays), rest)
      | inr goes ↦ rw goes rest
    ]

-- What follows from any element that has a predicate follows.
pub Any-use {ℓ} :
    {A : Type ℓ} {P : A → Type 0} {Q : Type 0} (xs : List A)
    → Any P xs
    → ((x : A) → Mem x xs → P x → Q)
    → Q
Any-use [] h f = absurd h
Any-use (x ∷ xs) (inl p) f = f x mem-cons_self p
Any-use (x ∷ xs) (inr h) f = Any-use xs h (λ y m. f y (mem-cons_of_mem x m))

module _ {A M : Type 0} (check : M → Ctx → A → Result Bool) (items : List A)
    (schedule : Schedule M items) where
  blank : Group
  blank = record { keep = λ _. false; failed = none }

  -- The group of the filter, at the end.
  ended : Group
  ended = complete_all check items schedule.calls blank

  ended-keep :
      (i : ℕ) (a : A)
      → get_elem? items i ≡ some a
      → ended.failed ≡ none
      → Any (λ c. check c.moment c.ctx a ≡ ok (ended.keep i)) schedule.calls
  unfolding ended
  ended-keep i a at clean = elim (run_keeps check items schedule.calls blank i a at clean) [
    | inl found ↦ Any-imp _ _ schedule.calls (λ c h. h.1) found
    | inr (out, _) ↦ absurd (
        out (
          (Perm.mem_iff schedule.each_once).1 (
            let e : 0 + i ≡ i = omega arith in
            subst (λ k. Mem k (indices 0 items)) e (mem-indices items 0 i a at))))
  ]

  filter_by_cases :
      ((ended.failed ≡ none) × (filter_by check items schedule ≡ ok (kept ended.keep 0 items)))
      ⊎ ((e : Error) × (ended.failed ≡ some e) × (filter_by check items schedule ≡ err e))
  unfolding filter_by ended blank
  filter_by_cases = elim (Option-cases ended.failed) [
    | inl clean ↦ inl (clean, ground arith)
    | inr (e, bad) ↦ inr (e, bad, ground arith)
  ]

  -- A list holds what the reviewer allows, in the order of the objects.
  pub filter_by-filter :
      (allowed : A → Bool) (out : List A)
      → ((c : Call M) (a : A) (b : Bool)
          → Mem c schedule.calls
          → check c.moment c.ctx a ≡ ok b
          → b ≡ allowed a)
      → filter_by check items schedule ≡ ok out
      → out ≡ filter allowed items
  filter_by-filter allowed out faithful h = elim filter_by_cases [
    | inr (e, _, fails) ↦ absurd (cc)
    | inl (clean, makes) ↦
        let same : out ≡ kept ended.keep 0 items = cc in
        same
        ∙ kept-filter ended.keep allowed 0 items (λ j a at.
          let e : 0 + j ≡ j = omega arith in
          ap ended.keep e
          ∙ Any-use schedule.calls (ended-keep j a at clean) (λ c m. faithful c a (ended.keep j) m))
  ]

  abbrev IsGranted : A → Type 0
  IsGranted a = Any (λ c. check c.moment c.ctx a ≡ ok true) schedule.calls

  -- Every element of a list that a filter returns has a call in that run which answered yes for
  -- it, whatever the test, the order of the calls and the contexts.
  pub filter_by-IsGranted :
      (out : List A) → filter_by check items schedule ≡ ok out → Each IsGranted out
  filter_by-IsGranted out h = elim filter_by_cases [
    | inr (e, _, fails) ↦ absurd (cc)
    | inl (clean, makes) ↦
        let same : kept ended.keep 0 items ≡ out = cc in
        subst (Each IsGranted) same (
          kept_all IsGranted ended.keep 0 items (λ j a at stays.
            let e : 0 + j ≡ j = omega arith in
            let yes_j = ap ended.keep (sym e) ∙ stays in
            Any-imp _ _ schedule.calls (λ c said. said ∙ ap ok yes_j) (ended-keep j a at clean)))
  ]

  -- If any call of a filter's group fails for an element, the filter returns an error and no
  -- list.
  pub filter_by_fails :
      Any
        (λ c.
          (a : A) × (e : Error) × (get_elem? items c.index ≡ some a)
          × (check c.moment c.ctx a ≡ err e))
        schedule.calls
      → (first : Error) × (filter_by check items schedule ≡ err first)
  unfolding ended
  filter_by_fails h = elim filter_by_cases [
    | inr (e, _, fails) ↦ (e, fails)
    | inl (clean, _) ↦
        let (first, full) = run_fails check items schedule.calls blank h in absurd (cc)
  ]

  -- An error is that of one of the calls.
  pub filter_by_error :
      (e : Error)
      → filter_by check items schedule ≡ err e
      → Any
          (λ c. (a : A) × (get_elem? items c.index ≡ some a) × (check c.moment c.ctx a ≡ err e))
          schedule.calls
  unfolding ended blank
  filter_by_error e h = elim filter_by_cases [
    | inl (_, makes) ↦ absurd (cc)
    | inr (e', full, fails) ↦
        let same : ended.failed ≡ some e = cc in
        run_error check items schedule.calls blank e refl same
  ]
