-- ===== src/Main/Filter.antt =====
-- `filterWorkspaces` and `filterAPIExports` of cmd/marketplace-vws/main.go: one review for each
-- object, run in a group of goroutines.
pub mod Fanout
pub mod Exact
pub mod Members
use kcp_marketplace.Base.{
  ℕ, zero, suc, String, Bool, true, false, Option, none, some, List, [], ◌∷◌, map, Perm,
  if◌then◌else◌, update,
}
use kcp_marketplace.Errors.{Ctx, Error, Result, ok, err}
use kcp_marketplace.Sar.{User, Digest, Spec, Checker, can_access_workspace, can_bind_api_export}
use kcp_marketplace.Datasource.{Workspace, ApiExport}

-- `sar.Interface`, as its methods answer at one moment of the program's run.
pub record Reviewer : Type 1 where
  pub Moment : Type 0
  pub can_access_workspace : Moment → Ctx → User → String → Result Bool
  pub can_bind_api_export : Moment → Ctx → User → String → String → Result Bool

-- The checker of pkg/sar: at a moment it has a cache, and reads the clock twice.
abbrev pub sar_reviewer : Digest → (Ctx → String → Spec → Result Bool) → Reviewer
sar_reviewer d client = record {
  Moment = Checker × (ℕ × ℕ);
  can_access_workspace =
      λ (c, times) ctx u cluster. (can_access_workspace d client c times ctx u cluster).0;
  can_bind_api_export =
      λ (c, times) ctx u cluster name. (can_bind_api_export d client c times ctx u cluster name).0;
}

unfoldable pub indices {ℓ} : {A : Type ℓ} → ℕ → List A → List ℕ
indices i [] = []
indices i (_ ∷ xs) = i ∷ indices (suc i) xs

unfoldable pub get_elem? {ℓ} : {A : Type ℓ} → List A → ℕ → Option A
get_elem? [] i = none
get_elem? (x ∷ xs) zero = some x
get_elem? (x ∷ xs) (suc i) = get_elem? xs i

-- A function of the group: its index, and when and under which context it calls the reviewer.
pub record Call (M : Type 0) : Type 0 where
  pub index : ℕ
  pub moment : M
  pub ctx : Ctx

-- What `errgroup` promises: each function given to `Go` runs once, in some order of completion,
-- and `Wait` returns after all of them, with the first error. When the context that they share is
-- cancelled, and which of them see it, is left open.
pub record Schedule {A : Type 0} (M : Type 0) (items : List A) : Type 0 where
  pub calls : List (Call M)
  pub each_once : Perm (map (λ c. c.index) calls) (indices 0 items)

pub record Group : Type 0 where
  pub keep : ℕ → Bool
  pub failed : Option Error

module _ {A M : Type 0} (check : M → Ctx → A → Result Bool) (items : List A) where
  -- What a call leaves: `keep[i] = ok`, and, in the group, the first error.
  unfoldable pub finish : ℕ → Result Bool → Group → Group
  finish i (ok allowed) g = record g { keep = update g.keep i allowed }
  finish i (err e) g = record {
    keep = update g.keep i false;
    failed = elim g.failed [ none ↦ some e | some first ↦ some first ];
  }

  unfoldable pub complete : Call M → Group → Group
  complete c g = elim (get_elem? items c.index) [
    | none ↦ g
    | some a ↦ finish c.index (check c.moment c.ctx a) g
  ]

  unfoldable pub complete_all : List (Call M) → Group → Group
  complete_all [] g = g
  complete_all (c ∷ cs) g = complete_all cs (complete c g)

-- The second loop.
unfoldable pub kept {ℓ} : {A : Type ℓ} → (ℕ → Bool) → ℕ → List A → List A
kept keep i [] = []
kept keep i (x ∷ xs) = let rest = kept keep (suc i) xs in if keep i then x ∷ rest else rest

module _ {A M : Type 0} (check : M → Ctx → A → Result Bool) where
  -- The body that both functions have.
  unfoldable pub filter_by : (items : List A) → Schedule M items → Result (List A)
  unfolding complete_all
  filter_by items schedule =
      let g =
        complete_all check items schedule.calls (record { keep = λ _. false; failed = none }) in
      elim g.failed [ some e ↦ err e | none ↦ ok (kept g.keep 0 items) ]

module _ (reviewer : Reviewer) (u : User) where
  unfoldable pub filter_workspaces :
      (ws : List Workspace) → Schedule reviewer.Moment ws → Result (List Workspace)
  filter_workspaces = filter_by (λ m ctx w. reviewer.can_access_workspace m ctx u w.cluster)

  unfoldable pub filter_api_exports :
      (axs : List ApiExport) → Schedule reviewer.Moment axs → Result (List ApiExport)
  filter_api_exports = filter_by (λ m ctx a. reviewer.can_bind_api_export m ctx u a.cluster a.name)
