-- ===== src/Api/DeepCopy/Independent.antt =====
-- What zz_generated.deepcopy.go promises: a copy has the contents of the original, and no array
-- with it in common.
use kcp_marketplace.Base.{zero, ◌≡◌, refl, ◌∙◌, ◌⊎◌, inl, inr, Option, none, some, List}
use kcp_marketplace.Api.DeepCopy.{
  Pointer, Into, new_copy, copy_object, K8s, Slice, Workspace, ListOf, Memory, workspaces, exports,
  workspaces_of, exports_of, copy_workspace_list, copy_export_list,
}
use kcp_marketplace.Api.DeepCopy.Copier.{Agree, Copier, IsLocal, Copies}
use kcp_marketplace.Api.DeepCopy.Parts.{
  ExportContents, export, export-IsLocal, export-Copies, workspace, workspace-IsLocal,
  workspace-Copies,
}
use kcp_marketplace.Api.DeepCopy.Arrays.{
  slice, slice-IsLocal, slice-Copies, struct, struct-IsLocal, struct-Copies,
}

module _ (K : K8s) where
  -- No write to the arrays of one of the two shows in the contents of the other.
  module _ {X V : Type 0} (k : Copier K X V) (kl : IsLocal K k) (ck : Copies K k) where
    keeps_original :
        (m n : Memory K) (x : X)
        → k.Within zero m.next m x
        → Agree K zero m.next (k.copy x m).1 n
        → k.view n x ≡ k.view m x
    keeps_original m n x w same =
        let c = ck m x w in
        kl.local zero m.next m n x w (λ a low high. c.keeps a low high ∙ same a low high)

    keeps_copy :
        (m n : Memory K) (x : X)
        → k.Within zero m.next m x
        → Agree K m.next (k.copy x m).1.next (k.copy x m).1 n
        → k.view n (k.copy x m).0 ≡ k.made (k.view m x)
    keeps_copy m n x w same =
        let c = ck m x w in
        let r = k.copy x m in kl.local m.next r.1.next r.1 n r.0 c.apart same ∙ c.alike

  abbrev workspace_slice : Copier K Slice (Option (List (Workspace K)))
  workspace_slice = slice K (workspace K) workspaces (workspaces_of K)

  abbrev export_slice : Copier K Slice (Option (List (ExportContents K)))
  export_slice = slice K (export K) exports (exports_of K)

  -- The two lists: what is read of them in a memory, and how they are copied.
  abbrev pub workspace_list :
      Copier K (ListOf K) ((K.TypeMeta × K.ListMeta) × Option (List (Workspace K)))
  workspace_list =
      struct K workspace_slice (λ l. l.items) (λ l. (l.type_meta, l.meta))
        (λ p. (p.0, K.copy_list_meta p.1)) (copy_workspace_list K)

  abbrev pub export_list :
      Copier K (ListOf K) ((K.TypeMeta × K.ListMeta) × Option (List (ExportContents K)))
  export_list =
      struct K export_slice (λ l. l.items) (λ l. (l.type_meta, l.meta))
        (λ p. (p.0, K.copy_list_meta p.1)) (copy_export_list K)

  workspace_list-IsLocal : IsLocal K workspace_list
  unfolding workspaces_of
  workspace_list-IsLocal = struct-IsLocal K workspace_slice _ _ _ _ (
      slice-IsLocal K (workspace K) (workspace-IsLocal K) workspaces (workspaces_of K) (λ xs. refl))

  export_list-IsLocal : IsLocal K export_list
  unfolding exports_of
  export_list-IsLocal =
      struct-IsLocal K export_slice _ _ _ _
        (slice-IsLocal K (export K) (export-IsLocal K) exports (exports_of K) (λ xs. refl))

  workspace_list-Copies : Copies K workspace_list
  unfolding workspaces_of copy_workspace_list
  workspace_list-Copies =
      struct-Copies K workspace_slice _ _ _ _ (λ s m. refl) (λ s m. refl) (λ s m. refl)
        (slice-Copies K (workspace K) (workspace-IsLocal K) workspaces (workspaces_of K)
          (λ xs. refl) (workspace-Copies K))

  export_list-Copies : Copies K export_list
  unfolding exports_of copy_export_list
  export_list-Copies =
      struct-Copies K export_slice _ _ _ _ (λ s m. refl) (λ s m. refl) (λ s m. refl)
        (slice-Copies K (export K) (export-IsLocal K) exports (exports_of K) (λ xs. refl)
          (export-Copies K))

  -- If all arrays of a list of exports lie in the memory, a deep copy has the contents of the
  -- list, with its metadata as `metav1` copies them, and goes on having them whatever is written
  -- to older arrays, while the list keeps its contents whatever is written to the arrays of the
  -- copy.
  pub copy_export_list_independent :
      (m over_original over_copy : Memory K) (l : ListOf K)
      → export_list.Within zero m.next m l
      → Agree K zero m.next (copy_export_list K l m).1 over_copy
      → Agree K m.next (copy_export_list K l m).1.next (copy_export_list K l m).1 over_original
      → (export_list.view over_copy l ≡ export_list.view m l)
        × (export_list.view over_original (copy_export_list K l m).0
            ≡ export_list.made (export_list.view m l))
  copy_export_list_independent m over_original over_copy l w below above = (
    keeps_original export_list export_list-IsLocal export_list-Copies m over_copy l w below,
    keeps_copy export_list export_list-IsLocal export_list-Copies m over_original l w above,
  )

  pub copy_workspace_list_independent :
      (m over_original over_copy : Memory K) (l : ListOf K)
      → workspace_list.Within zero m.next m l
      → Agree K zero m.next (copy_workspace_list K l m).1 over_copy
      → Agree K m.next
          (copy_workspace_list K l m).1.next
          (copy_workspace_list K l m).1
          over_original
      → (workspace_list.view over_copy l ≡ workspace_list.view m l)
        × (workspace_list.view over_original (copy_workspace_list K l m).0
            ≡ workspace_list.made (workspace_list.view m l))
  copy_workspace_list_independent m over_original over_copy l w below above = (
    keeps_original workspace_list workspace_list-IsLocal workspace_list-Copies m over_copy l w
        below,
    keeps_copy workspace_list workspace_list-IsLocal workspace_list-Copies m over_original l w
        above,
  )

  -- `DeepCopyObject` of a `nil` pointer is `nil`, and no pointer that is `nil` within an interface.
  copy_object_cases :
      {A : Type 0} (pointer : Option A → Pointer K) (into : Into K A) (p : Option A) (m : Memory K)
      → ((p ≡ none) × (copy_object K pointer into p m ≡ (none, m)))
        ⊎ ((x : A) × (p ≡ some x)
            × (copy_object K pointer into p m ≡ (some (pointer (some (into x m).0)), (into x m).1)))
  unfolding copy_object new_copy
  copy_object_cases pointer into none m = inl (refl, refl)
  copy_object_cases pointer into (some x) m = inr (x, refl, refl)
