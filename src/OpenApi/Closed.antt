-- ===== src/OpenApi/Closed.antt =====
-- Whether the schemas of pkg/generated/openapi/zz_generated.openapi.go fit together. The builder of
-- the OpenAPI document panics at a reference that it finds no definition for.
use mathlib.Core.List.{mem-cons, mem-cons_self, mem-cons_of_mem, not-mem-nil}
use mathlib.Core.Bool.{Bool-discrete}
use mathlib.Core.HLevel.{hedberg}
use mathlib.Core.Logic.Or
use mathlib.Core.Logic.{ite}
use kcp_marketplace.Base.{
  Option-cases, ◌≡◌, refl, sym, subst, inl, inr, Bool, true, false, ◌&&◌, Option, none, some, arith,
  List, [], ◌∷◌, Mem, String-discrete,
}
use kcp_marketplace.OpenApi.{ModelName, ModelName-discrete, Definition, references}
use kcp_marketplace.OpenApi.Definitions.{get_open_api_definitions}

abbrev pub Definitions : Type 0
Definitions = List (ModelName × Definition)

-- A look into the map that `GetOpenAPIDefinitions` returns.
unfoldable pub find : ModelName → Definitions → Option Definition
find name [] = none
find name ((n, d) ∷ rest) =
    let later = find name rest in ite (ModelName-discrete name n) (some d) later

abbrev is_some {ℓ} : {A : Type ℓ} → Option A → Bool
is_some none = false
is_some (some _) = true

contains : ModelName → List ModelName → Bool
contains name [] = false
contains name (n ∷ rest) =
    let later = contains name rest in ite (ModelName-discrete name n) true later

all {ℓ} : {A : Type ℓ} → (A → Bool) → List A → Bool
all p [] = true
all p (x ∷ xs) = p x && all p xs

all-Mem {ℓ} :
    {A : Type ℓ} (p : A → Bool) (xs : List A) (x : A) → all p xs ≡ true → Mem x xs → p x ≡ true
unfolding all
all-Mem p [] x h m = absurd (not-mem-nil m)
all-Mem p (y ∷ ys) x h m =
    Or.elim (hedberg Bool-discrete _ _) (mem-cons.0 m) (λ e. ground arith)
      (λ later. all-Mem p ys x (ground arith) later)

contains-Mem : (name : ModelName) (xs : List ModelName) → contains name xs ≡ true → Mem name xs
unfolding contains
contains-Mem name [] h = absurd (cc)
contains-Mem name (n ∷ rest) h = elim (ModelName-discrete name n) [
  | yes e ↦ subst (λ k. Mem k (n ∷ rest)) (sym e) mem-cons_self
  | no differ ↦ mem-cons_of_mem n (contains-Mem name rest (ground arith))
]

find-Mem :
    (name : ModelName) (d : Definition) (t : Definitions) → find name t ≡ some d → Mem (name, d) t
unfolding find
find-Mem name d [] h = absurd (cc)
find-Mem name d ((n, c) ∷ rest) h = elim (ModelName-discrete name n) [
  | yes e ↦
      let same : (n, c) ≡ (name, d) = ground arith in
      subst (λ k. Mem k ((n, c) ∷ rest)) same mem-cons_self
  | no differ ↦ mem-cons_of_mem (n, c) (find-Mem name d rest (ground arith))
]

-- What holds of a definition that fits.
fits : Definitions → ModelName × Definition → Bool
fits t (_, d) =
    all (λ r. contains r d.dependencies && is_some (find r t)) (references d.schema)
    && all (λ r. contains r (references d.schema)) d.dependencies

all_fit : all (fits get_open_api_definitions) get_open_api_definitions ≡ true
unfolding all fits contains find references ModelName-discrete String-discrete
all_fit = refl

fits_of_find :
    (name : ModelName) (d : Definition)
    → find name get_open_api_definitions ≡ some d
    → fits get_open_api_definitions (name, d) ≡ true
fits_of_find name d found =
    all-Mem (fits get_open_api_definitions) get_open_api_definitions (name, d) all_fit
      (find-Mem name d get_open_api_definitions found)

-- Every reference in the schema of a published definition is among the definition's
-- dependencies, and names a published definition.
pub references_resolve :
    (name r : ModelName) (d : Definition)
    → find name get_open_api_definitions ≡ some d
    → Mem r (references d.schema)
    → Mem r d.dependencies
      × ((target : Definition) × (find r get_open_api_definitions ≡ some target))
unfolding fits
references_resolve name r d found m =
    let fit = fits_of_find name d found in
    let at_r =
      all-Mem (λ k. contains k d.dependencies && is_some (find k get_open_api_definitions))
        (references d.schema) r (ground arith) m in
    (
      contains-Mem r d.dependencies (ground arith),
      elim (Option-cases (find r get_open_api_definitions)) [
        | inl missing ↦ absurd (ground arith)
        | inr there ↦ there
      ],
    )

pub dependencies_are_references :
    (name r : ModelName) (d : Definition)
    → find name get_open_api_definitions ≡ some d
    → Mem r d.dependencies
    → Mem r (references d.schema)
unfolding fits
dependencies_are_references name r d found m =
    let fit = fits_of_find name d found in
    contains-Mem r (references d.schema)
      (all-Mem (λ k. contains k (references d.schema)) d.dependencies r (ground arith) m)
