-- ===== src/Api/DeepCopy.antt =====
-- apis/marketplace/v1alpha1/zz_generated.deepcopy.go: the objects of the API as they lie in memory,
-- where a slice is `nil` or an array at an address, and the functions that copy them. An array is
-- taken when the loop over its elements is done; nothing reads it before. Of `metav1`, the metadata
-- are values, which its own functions copy.
pub mod Copier
pub mod Arrays
pub mod Parts
pub mod Independent
use kcp_marketplace.Base.{ℕ, suc, ◌+◌, String, Option, none, some, List, [], ◌∷◌, update}
use kcp_marketplace.Api.{WorkspaceSpec, BindableResource}

-- `metav1.ObjectMeta` and `metav1.ListMeta`, and what their `DeepCopyInto` write.
pub record K8s : Type 1 where
  pub TypeMeta : Type 0
  pub ObjectMeta : Type 0
  pub ListMeta : Type 0
  pub copy_object_meta : ObjectMeta → ObjectMeta
  pub copy_list_meta : ListMeta → ListMeta

abbrev pub Slice : Type 0
Slice = Option ℕ

-- `BindablePermissionClaim` and `BindableAPIExportSpec`
pub record Claim : Type 0 where
  pub group : String
  pub resource : String
  pub verbs : Slice
  pub identity_hash : String

pub record Spec : Type 0 where
  pub path : String
  pub cluster : String
  pub export_name : String
  pub identity_hash : String
  pub resources : Slice
  pub permission_claims : Slice

module _ (K : K8s) where
  -- `AccessibleWorkspace`, `BindableAPIExport`, and the lists of them
  pub record Workspace : Type 0 where
    pub type_meta : K.TypeMeta
    pub meta : K.ObjectMeta
    pub spec : WorkspaceSpec

  pub record Export : Type 0 where
    pub type_meta : K.TypeMeta
    pub meta : K.ObjectMeta
    pub spec : Spec

  pub record ListOf : Type 0 where
    pub type_meta : K.TypeMeta
    pub meta : K.ListMeta
    pub items : Slice

  -- An array, by the type of its elements.
  pub data Cell : Type 0 where
    unused : Cell
    strings : List String → Cell
    resources : List BindableResource → Cell
    claims : List Claim → Cell
    workspaces : List Workspace → Cell
    exports : List Export → Cell

  pub record Memory : Type 0 where
    pub next : ℕ
    pub at : ℕ → Cell

  unfoldable pub allocate : Cell → Memory → ℕ × Memory
  allocate c m = (m.next, record { next = suc m.next; at = update m.at m.next c })

  unfoldable pub strings_of : Cell → List String
  strings_of (strings xs) = xs
  strings_of _ = []

  unfoldable pub resources_of : Cell → List BindableResource
  resources_of (resources xs) = xs
  resources_of _ = []

  unfoldable pub claims_of : Cell → List Claim
  claims_of (claims xs) = xs
  claims_of _ = []

  unfoldable pub workspaces_of : Cell → List Workspace
  workspaces_of (workspaces xs) = xs
  workspaces_of _ = []

  unfoldable pub exports_of : Cell → List Export
  exports_of (exports xs) = xs
  exports_of _ = []

  -- A `DeepCopyInto`: what it writes to `out`, and the memory after it.
  abbrev pub Into : Type 0 → Type 0
  Into A = A → Memory → A × Memory

  unfoldable pub copy_each : {A : Type 0} → Into A → List A → Memory → List A × Memory
  copy_each into [] m = ([], m)
  copy_each into (x ∷ xs) m =
      let (y, n) = into x m in let (ys, o) = copy_each into xs n in (y ∷ ys, o)

  -- `make` and the loop, or `copy`, under `if in.… != nil`.
  unfoldable pub copy_slice : {A : Type 0} → (List A → Cell) → (Cell → List A) → Into A → Into Slice
  copy_slice wrap unwrap into none m = (none, m)
  copy_slice wrap unwrap into (some a) m =
      let (ys, n) = copy_each into (unwrap (m.at a)) m in
      let (b, o) = allocate (wrap ys) n in (some b, o)

  -- An element that is assigned.
  abbrev pub assign : {A : Type 0} → Into A
  assign x m = (x, m)

  unfoldable pub copy_workspace_spec : Into WorkspaceSpec
  copy_workspace_spec s m = (s, m)

  unfoldable pub copy_resource : Into BindableResource
  copy_resource r m = (r, m)

  unfoldable pub copy_claim : Into Claim
  copy_claim c m =
      let (verbs, n) = copy_slice strings strings_of assign c.verbs m in
      (record c { verbs = verbs }, n)

  unfoldable pub copy_spec : Into Spec
  copy_spec s m =
      let (rs, n) = copy_slice resources resources_of assign s.resources m in
      let (cs, o) = copy_slice claims claims_of copy_claim s.permission_claims n in
      (record s { resources = rs; permission_claims = cs }, o)

  unfoldable pub copy_workspace : Into Workspace
  copy_workspace w m = (record w { meta = K.copy_object_meta w.meta }, m)

  unfoldable pub copy_export : Into Export
  copy_export e m =
      let (spec, n) = copy_spec e.spec m in
      (record e { meta = K.copy_object_meta e.meta; spec = spec }, n)

  unfoldable pub copy_workspace_list : Into ListOf
  copy_workspace_list l m =
      let (items, n) = copy_slice workspaces workspaces_of copy_workspace l.items m in
      (record l { meta = K.copy_list_meta l.meta; items = items }, n)

  unfoldable pub copy_export_list : Into ListOf
  copy_export_list l m =
      let (items, n) = copy_slice exports exports_of copy_export l.items m in
      (record l { meta = K.copy_list_meta l.meta; items = items }, n)

  -- `DeepCopy` of a pointer.
  unfoldable pub new_copy : {A : Type 0} → Into A → Into (Option A)
  new_copy into none m = (none, m)
  new_copy into (some x) m = let (y, n) = into x m in (some y, n)

  -- A value of the interface type `runtime.Object`: `nil`, or a pointer, which can be `nil` itself.
  pub data Pointer : Type 0 where
    to_workspace : Option Workspace → Pointer
    to_workspace_list : Option ListOf → Pointer
    to_export : Option Export → Pointer
    to_export_list : Option ListOf → Pointer

  -- `DeepCopyObject`
  unfoldable pub copy_object :
      {A : Type 0} → (Option A → Pointer) → Into A → Option A → Memory → Option Pointer × Memory
  copy_object pointer into p m =
      let (c, n) = new_copy into p m in
      (elim c [ none ↦ none | some x ↦ some (pointer (some x)) ], n)
