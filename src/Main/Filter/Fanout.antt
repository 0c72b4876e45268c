-- ===== src/Main/Filter/Fanout.antt =====
-- What the group of cmd/marketplace-vws/main.go's filters holds when all its calls have ended.
use mathlib.Core.List.{mem-cons, not-mem-nil}
use mathlib.Core.Logic.Or
use kcp_marketplace.Base.{
  ℕ, ◌≡◌, ◌≢◌, ◌⊎◌, inl, inr, refl, sym, ◌∙◌, ap, Bool, none, some, arith, List, [], ◌∷◌, map, Mem,
  Option-cases, Any, ℕ_discrete,
}
use kcp_marketplace.Errors.{Ctx, Error, Result, ok, err, Result-cases}
use kcp_marketplace.Main.Filter.{Call, Group, finish, complete, complete_all, get_elem?}

module _ {A M : Type 0} (check : M → Ctx → A → Result Bool) (items : List A) where
  abbrev run : List (Call M) → Group → Group
  run = complete_all check items

  -- A call reviews the element of its index, and gets an answer of which something holds.
  abbrev pub Answers : Call M → ℕ → A → Bool → Type 0
  Answers c i a b = (c.index ≡ i) × (check c.moment c.ctx a ≡ ok b)

  complete_failed :
      (c : Call M) (g : Group) (e : Error)
      → g.failed ≡ some e
      → (complete check items c g).failed ≡ some e
  unfolding complete finish
  complete_failed c g e h = elim (Option-cases (get_elem? items c.index)) [
    | inl out ↦ ground arith
    | inr (a, at) ↦ elim (Result-cases (check c.moment c.ctx a)) [
      | inl (b, good) ↦ ground arith
      | inr (e', bad) ↦ ground arith
    ]
  ]

  -- The first error stays.
  pub run_failed :
      (cs : List (Call M)) (g : Group) (e : Error) → g.failed ≡ some e → (run cs g).failed ≡ some e
  unfolding complete_all
  run_failed [] g e h = h
  run_failed (c ∷ cs) g e h = run_failed cs (complete check items c g) e (complete_failed c g e h)

  -- A call that fails leaves an error in the group.
  complete_fails :
      (c : Call M) (g : Group) (a : A) (e : Error)
      → get_elem? items c.index ≡ some a
      → check c.moment c.ctx a ≡ err e
      → (first : Error) × ((complete check items c g).failed ≡ some first)
  unfolding complete finish
  complete_fails c g a e at bad = elim (Option-cases g.failed) [
    | inl clean ↦ (e, ground arith)
    | inr (first, was) ↦ (first, ground arith)
  ]

  -- While no call has failed, a call sets its own index to the answer.
  complete_keeps :
      (c : Call M) (g : Group) (i : ℕ) (a : A)
      → get_elem? items i ≡ some a
      → (complete check items c g).failed ≡ none
      → ((b : Bool) × Answers c i a b × ((complete check items c g).keep i ≡ b))
        ⊎ ((c.index ≢ i) × ((complete check items c g).keep i ≡ g.keep i))
  unfolding complete finish
  complete_keeps c g i a at clean = elim (ℕ_discrete c.index i) [
    | no apart ↦ inr (
      apart,
      elim (Option-cases (get_elem? items c.index)) [
        | inl out ↦ ground arith
        | inr (x, there) ↦ elim (Result-cases (check c.moment c.ctx x)) [
          | inl (b, good) ↦ ground arith
          | inr (e, bad) ↦ ground arith
        ]
      ],
    )
    | yes same ↦ elim (Result-cases (check c.moment c.ctx a)) [
      | inl (b, good) ↦ inl (b, (same, good), ground arith)
      | inr (e, bad) ↦
          let (first, full) = complete_fails c g a e (ap (get_elem? items) same ∙ at) bad in
          absurd (cc)
    ]
  ]

  -- If no call has failed, each index holds an answer to its element, or what it held before.
  pub run_keeps :
      (cs : List (Call M)) (g : Group) (i : ℕ) (a : A)
      → get_elem? items i ≡ some a
      → (run cs g).failed ≡ none
      → Any (λ c. Answers c i a ((run cs g).keep i)) cs
        ⊎ (¬ Mem i (map (λ c. c.index) cs) × ((run cs g).keep i ≡ g.keep i))
  unfolding complete_all
  run_keeps [] g i a at clean = inr (not-mem-nil, refl)
  run_keeps (c ∷ cs) g i a at clean = elim (run_keeps cs (complete check items c g) i a at clean) [
    | inl later ↦ inl (inr later)
    | inr (out, same) ↦ elim (Option-cases (complete check items c g).failed) [
      | inr (e, bad) ↦ let stays = run_failed cs (complete check items c g) e bad in absurd (cc)
      | inl fine ↦ elim (complete_keeps c g i a at fine) [
        | inl (b, (this, said), now) ↦ inl (inl (this, said ∙ ap ok (sym (same ∙ now))))
        | inr (apart, before) ↦
            inr (
              λ m. Or.elim (λ x y. absurd x) (mem-cons.0 m) (λ e. apart (sym e)) out,
              same ∙ before,
            )
      ]
    ]
  ]

  -- A call that fails makes the group fail.
  pub run_fails :
      (cs : List (Call M)) (g : Group)
      → Any
          (λ c.
            (a : A) × (e : Error) × (get_elem? items c.index ≡ some a)
            × (check c.moment c.ctx a ≡ err e))
          cs
      → (first : Error) × ((run cs g).failed ≡ some first)
  unfolding complete_all
  run_fails [] g h = absurd h
  run_fails (c ∷ cs) g (inl (a, e, at, bad)) =
      let (first, full) = complete_fails c g a e at bad in
      (first, run_failed cs (complete check items c g) first full)
  run_fails (c ∷ cs) g (inr later) = run_fails cs (complete check items c g) later

  complete_error :
      (c : Call M) (g : Group) (e : Error)
      → g.failed ≡ none
      → (complete check items c g).failed ≡ some e
      → (a : A) × (get_elem? items c.index ≡ some a) × (check c.moment c.ctx a ≡ err e)
  unfolding complete finish
  complete_error c g e clean h = elim (Option-cases (get_elem? items c.index)) [
    | inl out ↦ absurd (ground arith)
    | inr (a, at) ↦ elim (Result-cases (check c.moment c.ctx a)) [
      | inl (b, good) ↦ absurd (ground arith)
      | inr (e', bad) ↦ (a, at, ground arith)
    ]
  ]

  -- An error of the group is that of one of its calls.
  pub run_error :
      (cs : List (Call M)) (g : Group) (e : Error)
      → g.failed ≡ none
      → (run cs g).failed ≡ some e
      → Any
          (λ c. (a : A) × (get_elem? items c.index ≡ some a) × (check c.moment c.ctx a ≡ err e))
          cs
  unfolding complete_all
  run_error [] g e clean h = absurd (cc)
  run_error (c ∷ cs) g e clean h = elim (Option-cases (complete check items c g).failed) [
    | inl fine ↦ inr (run_error cs (complete check items c g) e fine h)
    | inr (e', bad) ↦
        let stays = run_failed cs (complete check items c g) e' bad in
        let same : (complete check items c g).failed ≡ some e = cc in
        inl (complete_error c g e clean same)
  ]
