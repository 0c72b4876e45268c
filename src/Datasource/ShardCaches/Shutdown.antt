-- ===== src/Datasource/ShardCaches/Shutdown.antt =====
-- What `remove` and the end of `Start` in pkg/datasource/shardcaches.go do to the contexts.
use mathlib.Core.HLevel.{hedberg, ¬_prop}
use mathlib.Core.List.{mem-cons_self, mem-cons_of_mem, mem-cons, not-mem-nil}
use mathlib.Core.List.Perm
use mathlib.Core.Logic.Or
use mathlib.Core.Option
use kcp_marketplace.Base.{
  ℕ, String, ◌≡◌, ◌≢◌, refl, sym, ap, inl, inr, none, List, [], ◌∷◌, Mem, Pairwise, arith,
  ℕ_discrete, Option-cases, if◌then◌else◌, ◌==◌,
}
use kcp_marketplace.Base.GoMap.{
  lookup, lookup-erase, mem_of_lookup, lookup_of_mem, NodupKeys-Pairwise,
}
use kcp_marketplace.Base.Sort.{RangeOrder}
use kcp_marketplace.Datasource.ShardCaches.{Aggregate, Caches, stop, stop_each, close_start, remove}
use kcp_marketplace.Datasource.ShardCaches.Steps.{Phase}
use kcp_marketplace.Datasource.ShardCaches.Invariant.{IsActive}
use kcp_marketplace.Datasource.ShardCaches.Moves.{IsSafe}
use kcp_marketplace.Datasource.ShardCaches.Transfers.{stop-IsSafe}

module _ (A : Aggregate) where
  abbrev AllActive : List (String × ℕ) → Caches A → Type 0
  AllActive entries s = (x : String × ℕ) → Mem x entries → IsActive A s x.0 x.1

  IsActive-stop_of_ne :
      (s : Caches A) (id other : String) (c k : ℕ)
      → id ≢ other
      → IsActive A s other k
      → IsActive A (stop A id c s) other k
  unfolding stop
  IsActive-stop_of_ne s id other c k differ was = ground (arith, lookup-erase other id s.active)

  stop_each-IsSafe :
      (entries : List (String × ℕ)) (s : Caches A) (f : ℕ → Phase)
      → AllActive entries s
      → Pairwise (λ p q. p.0 ≢ q.0) entries
      → IsSafe A s f
      → IsSafe A (stop_each A entries s) f
  unfolding stop_each
  stop_each-IsSafe [] s f _ _ v = v
  stop_each-IsSafe ((id, c) ∷ rest) s f active (Pairwise.cons differ distinct) v =
      stop_each-IsSafe rest (stop A id c s) f
        (λ (other, k) h.
          IsActive-stop_of_ne s id other c k (differ (other, k) h)
            (active (other, k) (mem-cons_of_mem (id, c) h)))
        distinct (stop-IsSafe A s f v id c (active (id, c) mem-cons_self))

  pub close_start-IsSafe :
      (order : RangeOrder (String × ℕ)) (s : Caches A) (f : ℕ → Phase)
      → IsSafe A s f
      → IsSafe A (close_start A order s) f
  unfolding close_start
  close_start-IsSafe order s f v =
      stop_each-IsSafe (order.visit s.active) s f
        (λ (id, c) h.
          lookup_of_mem (hedberg ℕ_discrete) id c s.active v.coherent.nodup
            ((Perm.mem_iff (order.visit-perm s.active)).0 h))
        (Perm.pairwise (λ p q. ¬_prop) (λ p q differ same. differ (sym same))
          (Perm.symm (order.visit-perm s.active))
          (NodupKeys-Pairwise (hedberg ℕ_discrete) s.active v.coherent.nodup))
        v

  pub remove-IsSafe :
      (id : String) (s : Caches A) (f : ℕ → Phase) → IsSafe A s f → IsSafe A (remove A id s) f
  unfolding remove
  remove-IsSafe id s f v = elim (Option-cases (lookup id s.active)) [
    | inl missing ↦ rw (missing, remove) v
    | inr (c, at) ↦ rw (at, remove) (stop-IsSafe A s f v id c at)
  ]

  lookup-stop :
      (s : Caches A) (id other : String) (c : ℕ)
      → lookup other (stop A id c s).active ≡ (if other == id then none else lookup other s.active)
  unfolding stop
  lookup-stop s id other c = lookup-erase other id s.active

  stop_each-none :
      (entries : List (String × ℕ)) (s : Caches A) (id : String)
      → lookup id s.active ≡ none
      → lookup id (stop_each A entries s).active ≡ none
  unfolding stop_each
  stop_each-none [] s id h = h
  stop_each-none ((other, c) ∷ rest) s id h =
      stop_each-none rest (stop A other c s) id (ground (arith, lookup-stop s other id c))

  stop_each_mem :
      (entries : List (String × ℕ)) (s : Caches A) (id : String) (c : ℕ)
      → Mem (id, c) entries
      → lookup id (stop_each A entries s).active ≡ none
  unfolding stop_each
  stop_each_mem [] s id c h = absurd (not-mem-nil h)
  stop_each_mem ((other, k) ∷ rest) s id c h =
      Or.elim (Option.is_set (hedberg ℕ_discrete) _ _) (mem-cons.0 h)
        (λ e.
          let ids : id ≡ other = ap (λ p. p.0) e in
          stop_each-none rest (stop A other k s) id (ground (arith, lookup-stop s other id k)))
        (stop_each_mem rest (stop A other k s) id c)

  -- When `Start` ends, no shard is active.
  pub close_start_empties :
      (order : RangeOrder (String × ℕ)) (s : Caches A) (id : String)
      → lookup id (close_start A order s).active ≡ none
  unfolding close_start
  close_start_empties order s id = elim (Option-cases (lookup id s.active)) [
    | inl free ↦ stop_each-none (order.visit s.active) s id free
    | inr (c, at) ↦
        stop_each_mem (order.visit s.active) s id c
          ((Perm.mem_iff (order.visit-perm s.active)).1 (mem_of_lookup id c s.active at))
  ]

  stop_each-contexts :
      (entries : List (String × ℕ)) (s : Caches A) → (stop_each A entries s).contexts ≡ s.contexts
  unfolding stop_each stop
  stop_each-contexts [] s = refl
  stop_each-contexts ((id, c) ∷ rest) s = stop_each-contexts rest (stop A id c s)

  pub close_start-contexts :
      (order : RangeOrder (String × ℕ)) (s : Caches A)
      → (close_start A order s).contexts ≡ s.contexts
  unfolding close_start
  close_start-contexts order s = stop_each-contexts (order.visit s.active) s
