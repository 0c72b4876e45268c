-- ===== src/Api/DeepCopy/Parts.antt =====
-- The types of zz_generated.deepcopy.go as structs and slices that are copied.
use kcp_marketplace.Base.{String, refl, Option, List}
use kcp_marketplace.Api.{BindableResource}
use kcp_marketplace.Api.DeepCopy.{
  K8s, Slice, Claim, Spec, Workspace, Export, strings, resources, claims, strings_of, resources_of,
  claims_of, copy_claim, copy_spec, copy_workspace, copy_export,
}
use kcp_marketplace.Api.DeepCopy.Copier.{
  Copier, IsLocal, Copies, plain, plain-IsLocal, plain-Copies, both, both-IsLocal, both-Copies,
}
use kcp_marketplace.Api.DeepCopy.Arrays.{
  slice, slice-IsLocal, slice-Copies, struct, struct-IsLocal, struct-Copies,
}

abbrev pub ClaimContents : Type 0
ClaimContents = (String × String × String) × Option (List String)

abbrev pub SpecContents : Type 0
SpecContents =
    (String × String × String × String)
    × (Option (List BindableResource) × Option (List ClaimContents))

module _ (K : K8s) where
  abbrev pub ExportContents : Type 0
  ExportContents = (K.TypeMeta × K.ObjectMeta) × SpecContents

  abbrev assigned : {X : Type 0} → Copier K X X
  assigned = plain K (λ x. x)

  abbrev assigned-IsLocal : {X : Type 0} → IsLocal K (assigned {X = X})
  assigned-IsLocal = plain-IsLocal K (λ x. x)

  abbrev verbs : Copier K Slice (Option (List String))
  verbs = slice K assigned strings (strings_of K)

  abbrev pub claim : Copier K Claim ClaimContents
  claim =
      struct K verbs (λ c. c.verbs) (λ c. (c.group, c.resource, c.identity_hash)) (λ p. p)
        (copy_claim K)

  claim-IsLocal : IsLocal K claim
  unfolding strings_of
  claim-IsLocal =
      struct-IsLocal K verbs _ _ _ _
        (slice-IsLocal K assigned assigned-IsLocal strings (strings_of K) (λ xs. refl))

  claim-Copies : Copies K claim
  unfolding strings_of copy_claim
  claim-Copies =
      struct-Copies K verbs _ _ _ _ (λ s m. refl) (λ s m. refl) (λ s m. refl)
        (slice-Copies K assigned assigned-IsLocal strings (strings_of K) (λ xs. refl)
          (plain-Copies K (λ x. x)))

  abbrev resource_slice : Copier K Slice (Option (List BindableResource))
  resource_slice = slice K assigned resources (resources_of K)

  abbrev claim_slice : Copier K Slice (Option (List ClaimContents))
  claim_slice = slice K claim claims (claims_of K)

  resource_slice-IsLocal : IsLocal K resource_slice
  unfolding resources_of
  resource_slice-IsLocal =
      slice-IsLocal K assigned assigned-IsLocal resources (resources_of K) (λ xs. refl)

  claim_slice-IsLocal : IsLocal K claim_slice
  unfolding claims_of
  claim_slice-IsLocal = slice-IsLocal K claim claim-IsLocal claims (claims_of K) (λ xs. refl)

  resource_slice-Copies : Copies K resource_slice
  unfolding resources_of
  resource_slice-Copies =
      slice-Copies K assigned assigned-IsLocal resources (resources_of K) (λ xs. refl)
        (plain-Copies K (λ x. x))

  claim_slice-Copies : Copies K claim_slice
  unfolding claims_of
  claim_slice-Copies =
      slice-Copies K claim claim-IsLocal claims (claims_of K) (λ xs. refl) claim-Copies

  abbrev slices :
      Copier K (Slice × Slice) (Option (List BindableResource) × Option (List ClaimContents))
  slices = both K resource_slice claim_slice

  slices-IsLocal : IsLocal K slices
  slices-IsLocal =
      both-IsLocal K resource_slice claim_slice resource_slice-IsLocal claim_slice-IsLocal

  slices-Copies : Copies K slices
  slices-Copies =
      both-Copies K resource_slice claim_slice resource_slice-IsLocal claim_slice-IsLocal
        resource_slice-Copies claim_slice-Copies

  abbrev pub spec : Copier K Spec SpecContents
  spec =
      struct K slices (λ s. (s.resources, s.permission_claims))
        (λ s. (s.path, s.cluster, s.export_name, s.identity_hash)) (λ p. p) (copy_spec K)

  spec-IsLocal : IsLocal K spec
  spec-IsLocal = struct-IsLocal K slices _ _ _ _ slices-IsLocal

  spec-Copies : Copies K spec
  unfolding copy_spec
  spec-Copies =
      struct-Copies K slices _ _ _ _ (λ s m. refl) (λ s m. refl) (λ s m. refl) slices-Copies

  abbrev pub export : Copier K (Export K) ExportContents
  export =
      struct K spec (λ e. e.spec) (λ e. (e.type_meta, e.meta)) (λ p. (p.0, K.copy_object_meta p.1))
        (copy_export K)

  pub export-IsLocal : IsLocal K export
  export-IsLocal = struct-IsLocal K spec _ _ _ _ spec-IsLocal

  pub export-Copies : Copies K export
  unfolding copy_export
  export-Copies = struct-Copies K spec _ _ _ _ (λ s m. refl) (λ s m. refl) (λ s m. refl) spec-Copies

  abbrev with_copied_meta : Workspace K → Workspace K
  with_copied_meta w = record w { meta = K.copy_object_meta w.meta }

  abbrev pub workspace : Copier K (Workspace K) (Workspace K)
  workspace = record (plain K with_copied_meta) { copy = copy_workspace K }

  pub workspace-IsLocal : IsLocal K workspace
  unfolding copy_workspace
  workspace-IsLocal = plain-IsLocal K with_copied_meta

  pub workspace-Copies : Copies K workspace
  unfolding copy_workspace
  workspace-Copies = plain-Copies K with_copied_meta
