-- ===== src/Tests/Scheme.antt =====
-- What the scheme knows after `init`, in a scheme that lists what was registered.
use kcp_marketplace.Base.{
  String, ◌≡◌, ◌⊎◌, inl, inr, refl, subst, Mem, some, List, [], ◌∷◌, String-discrete,
}
use kcp_marketplace.Base.GoMap.{lookup}
use kcp_marketplace.Errors.{ok}
use kcp_marketplace.Datasource.{static_source}
use kcp_marketplace.Apiserver.Storage.{Storage, new_storage}
use kcp_marketplace.Apiserver.Scheme.{
  GroupVersion, SchemeLibrary, scheme_group_version, known_types, add_known_types, init,
}
use kcp_marketplace.Main.Registered.{IsRegistered, storages-IsRegistered}
use kcp_marketplace.Main.Lists.{open_to_all}
use kcp_marketplace.Main.Storages.{storages, exports_config}
use kcp_marketplace.Main.Setup.{placeholder}

-- A scheme is the list of what was registered.
abbrev Registers : List (GroupVersion × List String) → GroupVersion → String → Type 0
Registers [] gv name = ⊥
Registers ((v, names) ∷ rest) gv name = ((v ≡ gv) × Mem name names) ⊎ Registers rest gv name

abbrev schemes : SchemeLibrary
schemes = record {
  Scheme = List (GroupVersion × List String);
  new = [];
  add_known_types = λ gv names s. (gv, names) ∷ s;
  add_unversioned_types = λ gv names s. (gv, names) ∷ s;
  add_to_group_version = λ _ s. s;
  add_internal_meta = λ s. ok s;
  Knows = Registers;
  known-added = λ gv names s name m. inl (refl, m);
  unversioned-keeps = λ _ _ _ _ _ k. inr k;
  group_version-keeps = λ _ _ _ _ k. k;
  internal-keeps =
      λ gv s t name same k. let equal : s ≡ t = cc in subst (λ r. Registers r gv name) equal k;
}

abbrev scheme : List (GroupVersion × List String)
scheme =
    (
      record { group = ""; version = "v1" },
      "Status" ∷ "APIVersions" ∷ "APIGroupList" ∷ "APIGroup" ∷ [],
    )
    ∷ (scheme_group_version, known_types)
    ∷ []

scheme_made : init schemes ≡ ok scheme
unfolding init add_known_types
scheme_made = refl

abbrev resource : String
resource = "bindableapiexports"

abbrev exports : Storage
exports = new_storage (exports_config (static_source placeholder) open_to_all open_to_all)

exports_found :
    lookup resource (storages (static_source placeholder) open_to_all open_to_all) ≡ some exports
unfolding storages lookup String-discrete
exports_found = refl

storages-IsRegistered_example : IsRegistered schemes scheme exports
storages-IsRegistered_example =
    storages-IsRegistered schemes scheme (static_source placeholder) open_to_all open_to_all
      resource exports scheme_made exports_found
