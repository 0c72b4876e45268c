-- ===== src/Datasource/Reconciler/Cases.antt =====
-- The ways in which `ensure` of pkg/datasource/shardcaches.go ends.
use kcp_marketplace.Base.{
  ap, subst, ℕ, ◌≤◌, ◌<◌, String, ◌≡◌, ◌⊎◌, inl, inr, refl, sym, ◌∙◌, Bool, true, none, some, arith,
  Option-cases, Bool-cases,
}
use kcp_marketplace.Base.GoMap.{lookup, lookup-insert, lookup-erase}
use kcp_marketplace.Errors.{Error, cache_not_built, cache_not_synced, Result, ok, err, Result-cases}
use kcp_marketplace.Datasource.ShardCaches.{
  Aggregate, Caches, Wake, remove, ensure, stop, cancel, with_cancel,
}
use kcp_marketplace.Datasource.ShardCaches.Invariant.{added}
use kcp_marketplace.Datasource.Reconciler.{Found, shard, not_found, failed}

module _ (A : Aggregate) where
  -- What a failed `ensure` leaves: all is as it was, but a context that it made is cancelled.
  pub record IsUntouched (s t : Caches A) : Type 0 where
    pub same_active : t.active ≡ s.active
    pub same_agg : t.agg ≡ s.agg
    pub same_synced : t.first_synced ≡ s.first_synced
    pub no_new : (c : ℕ) → s.contexts ≤ c → c < t.contexts → t.is_cancelled c ≡ true

  pub IsUntouched-refl : (s : Caches A) → IsUntouched s s
  IsUntouched-refl s = record {
    same_active = refl;
    same_agg = refl;
    same_synced = refl;
    no_new = λ c above below. absurd (omega arith);
  }

  dropped-IsUntouched : (s : Caches A) → IsUntouched s (cancel A s.contexts (with_cancel A s))
  unfolding cancel with_cancel
  dropped-IsUntouched s = record {
    same_active = refl;
    same_agg = refl;
    same_synced = refl;
    no_new = λ c above below. let e : s.contexts ≡ c = omega arith in ground arith;
  }

  -- `ensure` fails and leaves all as it was, or finds a cache, or adds one.
  pub ensure_cases :
      (wake : Wake) (id : String) (build : Result (Unit {0})) (sync : Bool) (s : Caches A)
      → let (r, t) = ensure A wake id build sync s in
        ((e : Error) × (r ≡ err e) × IsUntouched s t)
        ⊎ ((c : ℕ) × (r ≡ ok tt) × (lookup id s.active ≡ some c) × (t ≡ s))
        ⊎ ((r ≡ ok tt)
            × (lookup id s.active ≡ none)
            × (t ≡ added A id s.contexts (with_cancel A s)))
  unfolding ensure
  ensure_cases Wake.cancelled id build sync s = inl (_, refl, IsUntouched-refl s)
  ensure_cases Wake.started id build sync s = elim (Option-cases (lookup id s.active)) [
    | inr (c, there) ↦ inr (inl (c, ground arith, there, ground arith))
    | inl free ↦ elim (Result-cases build) [
      | inr (e, not_built) ↦ inl (
        cache_not_built id e,
        ground arith,
        let stays : (ensure A Wake.started id build sync s).1 ≡ s = ground arith in
            subst (IsUntouched s) (sym stays) (IsUntouched-refl s),
      )
      | inl (_, built) ↦ elim (Bool-cases sync) [
        | inl in_sync ↦ inr (inr (ground arith, free, ground arith))
        | inr not_in_sync ↦ inl (
          cache_not_synced id,
          ground arith,
          let ends : (ensure A Wake.started id build sync s).1
                  ≡ cancel A s.contexts (with_cancel A s) =
                ground arith in
              subst (IsUntouched s) (sym ends) (dropped-IsUntouched s),
        )
      ]
    ]
  ]

  -- The name of the request is that of the shard that `client.Get` finds.
  unfoldable pub IsNamed : String → Found → Type 0
  IsNamed name (shard found) = found.name ≡ name
  IsNamed name not_found = Unit
  IsNamed name (failed e) = Unit

  -- Two states agree on one shard.
  unfoldable pub IsSameOn : String → Caches A → Caches A → Type 0
  IsSameOn id s t =
      (lookup id t.active ≡ lookup id s.active) × (A.registered id t.agg ≡ A.registered id s.agg)

  pub remove-IsSameOn :
      (name other : String) (s : Caches A) → ¬ (other ≡ name) → IsSameOn other s (remove A name s)
  unfolding remove stop IsSameOn
  remove-IsSameOn name other s apart = elim (Option-cases (lookup name s.active)) [
    | inl free ↦ (ground arith, ground arith)
    | inr (c, there) ↦ (
      ground (arith, lookup-erase other name s.active),
      ground (arith, A.registered-remove other name s.agg),
    )
  ]

  added-IsSameOn :
      (id other : String) (c : ℕ) (s : Caches A)
      → ¬ (other ≡ id)
      → IsSameOn other s (added A id c s)
  unfolding IsSameOn
  added-IsSameOn id other c s apart = (
    ground (arith, lookup-insert other id c s.active),
    ground (arith, A.registered-add other id c s.agg),
  )

  pub ensure-IsSameOn :
      (wake : Wake) (id other : String) (build : Result (Unit {0})) (sync : Bool) (s : Caches A)
      → ¬ (other ≡ id)
      → IsSameOn other s ((ensure A wake id build sync s).1)
  unfolding IsSameOn with_cancel
  ensure-IsSameOn wake id other build sync s apart = elim (ensure_cases wake id build sync s) [
    | inl (_, _, u) ↦ (ap (lookup other) u.same_active, ap (A.registered other) u.same_agg)
    | inr (inl (_, _, _, e)) ↦
        (ap (λ t. lookup other t.active) e, ap (λ t. A.registered other t.agg) e)
    | inr (inr (_, _, e)) ↦
        let (a, b) = added-IsSameOn id other s.contexts (with_cancel A s) apart in
        (ap (λ t. lookup other t.active) e ∙ a, ap (λ t. A.registered other t.agg) e ∙ b)
  ]
