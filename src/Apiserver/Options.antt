-- ===== src/Apiserver/Options.antt =====
-- `Options` of pkg/apiserver/apiserver.go.
use kcp_marketplace.Base.{
  ℕ, String, ◌≡◌, ◌≢◌, ◌↔◌, refl, arith, List, [], ◌∷◌, ◌==◌, if◌then◌else◌, String-discrete,
}
use kcp_marketplace.Errors.{Error, no_client_ca_file, Result, ok, err}

-- Of `SecureServing`, the port that the package sets.
pub record Options : Type 0 where
  pub bind_port : ℕ
  pub client_ca_file : String
  pub allowed_names : List String
  pub username_headers : List String
  pub group_headers : List String
  pub extra_header_prefixes : List String
  pub path_prefix : String

unfoldable pub new_options : Options
new_options = record {
  bind_port = 6444;
  client_ca_file = "";
  allowed_names = [];
  username_headers = "X-Remote-User" ∷ [];
  group_headers = "X-Remote-Group" ∷ [];
  extra_header_prefixes = "X-Remote-Extra-" ∷ [];
  path_prefix = "";
}

unfoldable pub utilerrors : List Error → Result (Unit {0})
utilerrors [] = ok tt
utilerrors (e ∷ _) = err e

-- `serving_errors` is what `SecureServing.Validate` reports.
unfoldable pub validate : List Error → Options → Result (Unit {0})
validate serving_errors o =
    if o.client_ca_file == "" then err no_client_ca_file else utilerrors serving_errors

-- Options are usable when a CA is named and the serving options have no error.
pub validate_iff :
    (errors : List Error) (o : Options)
    → (validate errors o ≡ ok tt) ↔ ((o.client_ca_file ≢ "") × (errors ≡ []))
unfolding validate utilerrors
validate_iff [] o = elim (String-discrete o.client_ca_file "") [
  | yes unset ↦ (λ h. absurd (ground arith), λ h. absurd (h.0 unset))
  | no set ↦ (λ h. (set, refl), λ h. ground arith)
]
validate_iff (e ∷ es) o = (λ h. absurd (ground arith), λ h. absurd (ground arith))
