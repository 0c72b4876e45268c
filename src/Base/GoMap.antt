-- ===== src/Base/GoMap.antt =====
-- Go's `map[string]V` as an association list with at most one entry for a key.
use mathlib.Core.List.{
  List, [], ◌∷◌, Mem, Pairwise, mem-cons, mem-cons_self, mem-cons_of_mem, not-mem-nil,
}
use mathlib.Core.Logic.Or
use mathlib.Core.Logic.{◌≢◌}
use mathlib.Core.Option
use mathlib.Core.Option.{Option, none, some}
use mathlib.Core.Path.{◌≡◌, refl, sym, ◌∙◌, ap, subst}
use native.Mathlib.Omega.{arith}
use Prim.Native.String.{String}
use kcp_marketplace.Base.Tests.{◌==◌, if◌then◌else◌, String-discrete}

abbrev pub GoMap {ℓ} : Type ℓ → Type ℓ
GoMap V = List (String × V)

module _ {ℓ} {V : Type ℓ} where
  -- `v, ok := m[k]`
  unfoldable pub lookup : String → GoMap V → Option V
  lookup k [] = none
  lookup k ((j, v) ∷ m) = if k == j then some v else lookup k m

  -- `m[k] = v`
  unfoldable pub insert : String → V → GoMap V → GoMap V
  insert k v [] = (k, v) ∷ []
  insert k v ((j, w) ∷ m) = if k == j then (k, v) ∷ m else (j, w) ∷ insert k v m

  -- `delete(m, k)`
  unfoldable pub erase : String → GoMap V → GoMap V
  erase k [] = []
  erase k ((j, w) ∷ m) = let rest = erase k m in if k == j then rest else (j, w) ∷ rest

  abbrev pub values : GoMap V → List V
  values [] = []
  values ((_, v) ∷ m) = v ∷ values m

  abbrev pub NodupKeys : GoMap V → Type ℓ
  NodupKeys [] = Unit
  NodupKeys ((k, _) ∷ m) = (lookup k m ≡ none) × NodupKeys m

  pub lookup-insert :
      (j k : String) (v : V) (m : GoMap V)
      → lookup j (insert k v m) ≡ (if j == k then some v else lookup j m)
  unfolding lookup insert
  lookup-insert j k v [] = refl
  lookup-insert j k v (_ ∷ m) = ground (arith, lookup-insert j k v m)

  pub lookup-erase :
      (j k : String) (m : GoMap V) → lookup j (erase k m) ≡ (if j == k then none else lookup j m)
  unfolding lookup erase
  lookup-erase j k [] = ground arith
  lookup-erase j k (_ ∷ m) = ground (arith, lookup-erase j k m)

  pub insert-NodupKeys : (k : String) (v : V) (m : GoMap V) → NodupKeys m → NodupKeys (insert k v m)
  unfolding lookup insert
  insert-NodupKeys k v [] _ = (refl, tt)
  insert-NodupKeys k v ((j, _) ∷ m) (fresh, u) =
      ground (arith, insert-NodupKeys k v m u, lookup-insert j k v m)

  pub erase-NodupKeys : (k : String) (m : GoMap V) → NodupKeys m → NodupKeys (erase k m)
  unfolding lookup erase
  erase-NodupKeys k [] _ = tt
  erase-NodupKeys k ((j, _) ∷ m) (fresh, u) =
      ground (arith, erase-NodupKeys k m u, lookup-erase j k m)

  pub mem-values_of_lookup :
      (k : String) (v : V) (m : GoMap V) → lookup k m ≡ some v → Mem v (values m)
  unfolding lookup
  mem-values_of_lookup k v [] h = absurd (cc)
  mem-values_of_lookup k v ((j, w) ∷ m) h = elim (String-discrete k j) [
    | yes p ↦ let e : w ≡ v = ground arith in subst (λ u. Mem u (w ∷ values m)) e mem-cons_self
    | no p ↦ mem-cons_of_mem w (mem-values_of_lookup k v m (ground arith))
  ]

  pub mem_of_lookup : (k : String) (v : V) (m : GoMap V) → lookup k m ≡ some v → Mem (k, v) m
  unfolding lookup
  mem_of_lookup k v [] h = absurd (cc)
  mem_of_lookup k v ((j, w) ∷ m) h = elim (String-discrete k j) [
    | yes p ↦
        let e : w ≡ v = ground arith in
        subst (λ (l : String). Mem (k, v) ((l, w) ∷ m)) p
          (subst (λ u. Mem (k, v) ((k, u) ∷ m)) (sym e) mem-cons_self)
    | no p ↦ mem-cons_of_mem (j, w) (mem_of_lookup k v m (ground arith))
  ]

  pub lookup_of_mem :
      IsSet V
      → (k : String) (v : V) (m : GoMap V) → NodupKeys m
      → Mem (k, v) m
      → lookup k m ≡ some v
  unfolding lookup
  lookup_of_mem vset k v [] _ h = absurd (not-mem-nil h)
  lookup_of_mem vset k v ((j, w) ∷ m) (fresh, nodup) h =
      Or.elim (Option.is_set vset _ _) (mem-cons.0 h)
        (λ e.
          let keys : k ≡ j = ap (λ p. p.0) e in let vals : v ≡ w = ap (λ p. p.1) e in ground arith)
        (λ later. let ih = lookup_of_mem vset k v m nodup later in ground arith)

  pub NodupKeys-Pairwise : IsSet V → (m : GoMap V) → NodupKeys m → Pairwise (λ p q. p.0 ≢ q.0) m
  NodupKeys-Pairwise vset [] _ = Pairwise.nil
  NodupKeys-Pairwise vset ((k, v) ∷ m) (fresh, nodup) =
      Pairwise.cons
        (λ (j, w) h e.
          let found = lookup_of_mem vset j w m nodup h in
          let missing = subst (λ i. lookup i m ≡ none) e fresh in cc)
        (NodupKeys-Pairwise vset m nodup)

-- Maps whose keys are computed from their values.
module _ {ℓ} {V : Type ℓ} (key : V → String) where
  abbrev pub IsKeyed : GoMap V → Type ℓ
  IsKeyed [] = Unit
  IsKeyed ((k, v) ∷ m) = (k ≡ key v) × IsKeyed m

  pub insert-IsKeyed : (v : V) (m : GoMap V) → IsKeyed m → IsKeyed (insert (key v) v m)
  unfolding insert
  insert-IsKeyed v [] _ = (refl, tt)
  insert-IsKeyed v ((j, w) ∷ m) (here, rest) = ground (arith, insert-IsKeyed v m rest)

  pub lookup_of_mem-values :
      IsSet V
      → (v : V) (m : GoMap V) → IsKeyed m
      → NodupKeys m
      → Mem v (values m)
      → lookup (key v) m ≡ some v
  unfolding lookup
  lookup_of_mem-values vset v [] _ _ h = absurd (not-mem-nil h)
  lookup_of_mem-values vset v ((k, w) ∷ m) (here, keyed) (fresh, nodup) h =
      Or.elim (Option.is_set vset _ _) (mem-cons.0 h) (λ e. ground (arith, ap key e))
        (λ later. let ih = lookup_of_mem-values vset v m keyed nodup later in ground arith)

  -- No two values have the same key.
  abbrev pub DistinctKeys : List V → Type ℓ
  DistinctKeys = Pairwise (λ v w. key v ≢ key w)

  pub values-DistinctKeys :
      IsSet V → (m : GoMap V) → IsKeyed m → NodupKeys m → DistinctKeys (values m)
  values-DistinctKeys vset [] _ _ = Pairwise.nil
  values-DistinctKeys vset ((k, w) ∷ m) (here, keyed) (fresh, nodup) =
      Pairwise.cons
        (λ v h e.
          let found = lookup_of_mem-values vset v m keyed nodup h in
          let missing = subst (λ j. lookup j m ≡ none) (here ∙ e) fresh in cc)
        (values-DistinctKeys vset m keyed nodup)
