-- ===== src/Tests/Copies.antt =====
-- Copies of a list of exports with claims, in a memory that is then written to.
use kcp_marketplace.Base.{
  ℕ, zero, suc, String, ◌≡◌, ◌≢◌, refl, sym, none, some, [], ◌∷◌, ℕ_discrete, arith, update,
}
use mathlib.Core.Logic.{if_neg}
use kcp_marketplace.Api.DeepCopy.{
  K8s, Claim, Spec, ListOf, Memory, Cell, unused, strings, claims, exports, copy_export_list,
  strings_of, resources_of, claims_of, exports_of, allocate, copy_each, copy_slice, copy_claim,
  copy_spec, copy_export,
}
use kcp_marketplace.Api.DeepCopy.Copier.{Agree}
use kcp_marketplace.Api.DeepCopy.Independent.{export_list, copy_export_list_independent}

abbrev k8s : K8s
k8s = record {
  TypeMeta = Unit {0};
  ObjectMeta = String;
  ListMeta = Unit {0};
  copy_object_meta = λ name. name;
  copy_list_meta = λ m. m;
}

abbrev claim : Claim
claim = record { group = ""; resource = "secrets"; verbs = some 0; identity_hash = "" }

abbrev spec : Spec
spec = record {
  path = "root";
  cluster = "root";
  export_name = "tenancy.kcp.io";
  identity_hash = "abc";
  resources = none;
  permission_claims = some 1;
}

abbrev cells : ℕ → Cell k8s
cells zero = strings ("get" ∷ "list" ∷ [])
cells (suc zero) = claims (claim ∷ [])
cells (suc (suc zero)) =
    exports (record { type_meta = tt; meta = "tenancy.kcp.io"; spec = spec } ∷ [])
cells (suc (suc (suc _))) = unused

abbrev memory : Memory k8s
memory = record { next = 3; at = cells }

abbrev exported : ListOf k8s
exported = record { type_meta = tt; meta = tt; items = some 2 }

abbrev copied : ListOf k8s × Memory k8s
copied = copy_export_list k8s exported memory

-- A write to the verbs of the original, or of the copy.
abbrev written : ℕ → Memory k8s
written a = record copied.1 { at = update copied.1.at a (strings ("delete" ∷ [])) }

apart_from : (a b : ℕ) → a ≢ b → copied.1.at b ≡ (written a).at b
apart_from a b differ = sym (if_neg (ℕ_discrete a b) differ _ (copied.1.at b))

exported-IsWithin : (export_list k8s).Within zero memory.next memory exported
unfolding strings_of claims_of exports_of resources_of
exported-IsWithin = (
  omega arith,
  omega arith,
  ((tt, (omega arith, omega arith, ((omega arith, omega arith, (tt, (tt, tt))), tt))), tt),
)

-- The copy has its arrays from 3 on.
copied_size : copied.1.next ≡ 6
unfolding copy_export_list copy_slice copy_each allocate copy_export copy_spec copy_claim strings_of
    claims_of exports_of resources_of
copied_size = refl

copied_items : copied.0.items ≡ some 5
unfolding copy_export_list copy_slice copy_each allocate copy_export copy_spec copy_claim strings_of
    claims_of exports_of resources_of
copied_items = refl

below : Agree k8s zero memory.next copied.1 (written 3)
below a low high = apart_from 3 a (λ same. omega arith)

above : Agree k8s memory.next copied.1.next copied.1 (written 0)
above a low high = apart_from 0 a (λ same. omega arith)

copy_export_list_independent_example :
    ((export_list k8s).view (written 3) exported ≡ (export_list k8s).view memory exported)
    × ((export_list k8s).view (written 0) copied.0
        ≡ (export_list k8s).made ((export_list k8s).view memory exported))
copy_export_list_independent_example =
    copy_export_list_independent k8s memory (written 0) (written 3) exported exported-IsWithin below
      above
