-- ===== src/Api/RoundTrip.antt =====
-- What `encoding/json` writes of an object of the API is read back as that object.
use kcp_marketplace.Base.{
  String, ◌≡◌, refl, false, Option, none, some, List, [], ◌∷◌, ◌==◌, arith, String-discrete,
}
use kcp_marketplace.Api.{
  WorkspaceSpec, AccessibleWorkspace, BindableResource, BindablePermissionClaim,
  BindableApiExportSpec, BindableApiExport,
}
use kcp_marketplace.Api.Json.{
  Json, str, Fields, TypeMeta, Metadata, optional, elements_of, optional_array,
  encode_workspace_spec, encode_resource, encode_claim, encode_export_spec, encode_workspace,
  encode_export,
}
use kcp_marketplace.Api.Decode.{
  look, decode_text, decode_elements, decode_array, fields_of, decode_string, decode_resource,
  decode_claim, decode_workspace_spec, decode_export_spec, decode_workspace, decode_export,
}

module _ (name : String) (rest : Fields) where
  text_here :
      (value : String)
      → look name rest ≡ none
      → decode_text (look name (optional name value rest)) ≡ some value
  unfolding look optional decode_text
  text_here value free = elim (String-discrete value "") [
    | yes empty ↦ ground arith
    | no full ↦ ground arith
  ]

  past_text :
      (other value : String)
      → (name == other) ≡ false
      → look name (optional other value rest) ≡ look name rest
  unfolding look optional
  past_text other value differ = elim (String-discrete value "") [
    | yes empty ↦ ground arith
    | no full ↦ ground arith
  ]

  module _ {A : Type 0} (encode : A → Json) where
    past_array :
        (other : String) (xs : List A)
        → (name == other) ≡ false
        → look name (optional_array other encode xs rest) ≡ look name rest
    unfolding look optional_array
    past_array other [] differ = refl
    past_array other (x ∷ xs) differ = ground arith

    module _ (decode : Json → Option A) (back : (x : A) → decode (encode x) ≡ some x) where
      elements_back : (xs : List A) → decode_elements decode (elements_of encode xs) ≡ some xs
      unfolding decode_elements elements_of
      elements_back [] = refl
      elements_back (x ∷ xs) = let one = back x in let all = elements_back xs in ground arith

      array_here :
          (xs : List A)
          → look name rest ≡ none
          → decode_array decode (look name (optional_array name encode xs rest)) ≡ some xs
      unfolding look optional_array decode_array
      array_here [] free = rw free refl
      array_here (x ∷ xs) free = let all = elements_back (x ∷ xs) in ground arith

decode-str : (v : String) → decode_string (str v) ≡ some v
unfolding decode_string decode_text
decode-str v = refl

pub decode-encode_workspace_spec :
    (s : WorkspaceSpec) → decode_workspace_spec (encode_workspace_spec s) ≡ some s
unfolding encode_workspace_spec decode_workspace_spec fields_of look String-discrete
decode-encode_workspace_spec s = simp (past_text, text_here)

pub decode-encode_resource : (r : BindableResource) → decode_resource (encode_resource r) ≡ some r
unfolding encode_resource decode_resource fields_of look String-discrete
decode-encode_resource r = simp (past_text, text_here)

pub decode-encode_claim : (c : BindablePermissionClaim) → decode_claim (encode_claim c) ≡ some c
unfolding encode_claim decode_claim fields_of look String-discrete
decode-encode_claim c = simp (past_text, past_array, text_here, array_here, decode-str)

pub decode-encode_export_spec :
    (s : BindableApiExportSpec) → decode_export_spec (encode_export_spec s) ≡ some s
unfolding encode_export_spec decode_export_spec fields_of look String-discrete
decode-encode_export_spec s =
    simp (past_text, past_array, text_here, array_here, decode-encode_resource, decode-encode_claim)

-- `name_of` finds the name in the metadata that `m` writes for it.
module _ (m : Metadata) (name_of : Json → Option String)
    (named : (name : String) → name_of (m.object_meta name) ≡ some name) where
  pub decode-encode_workspace :
      (t : TypeMeta) (w : AccessibleWorkspace)
      → decode_workspace name_of (encode_workspace m t w) ≡ some w
  unfolding decode_workspace encode_workspace fields_of look String-discrete
  decode-encode_workspace t w = simp (past_text, named, decode-encode_workspace_spec)

  -- If the name of an object can be read back out of the metadata that are written for it, an
  -- export that is written as JSON by the tags of its type is read back by them as the same
  -- export, where a nil slice and an empty one count as one.
  pub decode-encode_export :
      (t : TypeMeta) (e : BindableApiExport) → decode_export name_of (encode_export m t e) ≡ some e
  unfolding decode_export encode_export fields_of look String-discrete
  decode-encode_export t e = simp (past_text, named, decode-encode_export_spec)
