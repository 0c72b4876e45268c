-- ===== src/Apiserver/Flags.antt =====
-- `AddFlags` of pkg/apiserver/apiserver.go: the flags that set the options. The flags of
-- `SecureServing` are its own.
use kcp_marketplace.Base.{String, ◌≡◌, refl, some, List, [], ◌∷◌, String-discrete}
use kcp_marketplace.Base.GoMap.{GoMap, lookup}
use kcp_marketplace.Apiserver.Options.{Options}

pub data FlagValue : Type 0 where
  text : String → FlagValue
  texts : List String → FlagValue

-- A flag, with its default, which is what its variable holds before.
abbrev pub FlagSet : Type 0
FlagSet = List (String × FlagValue)

abbrev pub add_flags : Options → FlagSet
add_flags o =
    ("requestheader-client-ca-file", text o.client_ca_file)
    ∷ ("requestheader-allowed-names", texts o.allowed_names)
    ∷ ("requestheader-username-headers", texts o.username_headers)
    ∷ ("requestheader-group-headers", texts o.group_headers)
    ∷ ("requestheader-extra-headers-prefix", texts o.extra_header_prefixes)
    ∷ ("path-prefix", text o.path_prefix)
    ∷ []

-- The variable of a flag after the parsing: what was set, or what it was before.
unfoldable pub text_var : String → String → GoMap FlagValue → String
text_var name before settings = elim (lookup name settings) [ some (text v) ↦ v | _ ↦ before ]

unfoldable pub texts_var : String → List String → GoMap FlagValue → List String
texts_var name before settings = elim (lookup name settings) [ some (texts vs) ↦ vs | _ ↦ before ]

unfoldable pub set_options : GoMap FlagValue → Options → Options
set_options settings o = record o {
  client_ca_file = text_var "requestheader-client-ca-file" o.client_ca_file settings;
  allowed_names = texts_var "requestheader-allowed-names" o.allowed_names settings;
  username_headers = texts_var "requestheader-username-headers" o.username_headers settings;
  group_headers = texts_var "requestheader-group-headers" o.group_headers settings;
  extra_header_prefixes =
      texts_var "requestheader-extra-headers-prefix" o.extra_header_prefixes settings;
  path_prefix = text_var "path-prefix" o.path_prefix settings;
}

-- Each flag that `AddFlags` declares sets the variable that its default is taken from: setting
-- every flag to its default for some options makes those options of any others, but for the
-- port, which has no flag here.
pub set_options-add_flags :
    (o before : Options)
    → set_options (add_flags o) before ≡ record o { bind_port = before.bind_port }
unfolding set_options text_var texts_var lookup String-discrete
set_options-add_flags o before = refl

-- Without flags nothing changes.
pub set_options-nil : (o : Options) → set_options [] o ≡ o
unfolding set_options text_var texts_var lookup
set_options-nil o = refl
