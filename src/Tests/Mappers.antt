-- ===== src/Tests/Mappers.antt =====
-- pkg/datasource/mappers_test.go, and instances of the theorems on the mappers.
use Prim.Native.Char.{code}
use mathlib.Core.List.Perm
use mathlib.Core.Bool.{true≢false}
use kcp_marketplace.Base.{
  ◌==◌, ◌≡◌, ◌≢◌, ◌↔◌, ◌∙◌, sym, refl, String, false, List, [], ◌∷◌, Mem, Pairwise, Perm, ap, some,
  none, String-discrete, arith,
}
use kcp_marketplace.Base.GoMap.{lookup, insert}
use kcp_marketplace.Base.Sort.{RangeOrder, in_order, sort_slice}
use kcp_marketplace.Base.Text.{text_less}
use kcp_marketplace.Datasource.{Workspace, ApiExport}
use kcp_marketplace.Datasource.Mappers.{
  Kcp, LogicalCluster, KcpApiExport, path_of, annotation, map_workspaces, map_api_exports,
  export_less, path_annotation,
}
use kcp_marketplace.Datasource.Mappers.Collect.{LastListed, here, there}
use kcp_marketplace.Datasource.Mappers.ExportKey.{HasNoSlash}
use kcp_marketplace.Datasource.Mappers.Workspaces.{
  Lists, mem-map_workspaces, map_workspaces_sorted_distinct, map_workspaces_order_irrelevant,
}
use kcp_marketplace.Datasource.Mappers.Exports.{
  AllHaveNoSlash, LastNamed, mem-map_api_exports, map_api_exports_sorted_distinct,
  map_api_exports_order_irrelevant,
}

abbrev cluster_annotation : String
cluster_annotation = "kcp.io/cluster"

abbrev pub kcp : Kcp
kcp = record {
  cluster_of = λ meta. elim (lookup cluster_annotation meta.annotations) [ none ↦ "" | some c ↦ c ];
  phase_ready = "Ready";
}

abbrev lc : String → String → String → LogicalCluster
lc cluster path phase = record {
  meta = record {
    name = "cluster";
    annotations = (cluster_annotation, cluster) ∷ (path_annotation, path) ∷ [];
  };
  phase = phase;
}

abbrev pub clusters : List LogicalCluster
clusters =
    lc "rootcl" "" "Ready"
    ∷ lc "bcl" "root:team-b" "Ready"
    ∷ lc "pcl" "root:new" "Initializing"
    ∷ lc "acl" "root:team-a" "Ready"
    ∷ lc "bcl" "root:team-b" "Ready"
    ∷ []

test_map_workspaces :
    map_workspaces kcp in_order clusters
    ≡ record { path = "root:team-a"; cluster = "acl" }
      ∷ record { path = "root:team-b"; cluster = "bcl" }
      ∷ []
unfolding map_workspaces lookup insert sort_slice String-discrete
test_map_workspaces = refl

mem-map_workspaces_example :
    Mem (record { path = "root:team-a"; cluster = "acl" }) (map_workspaces kcp in_order clusters)
    ↔ LastListed
        (λ v. v.cluster)
        (Lists kcp)
        (record { path = "root:team-a"; cluster = "acl" })
        clusters
mem-map_workspaces_example =
    mem-map_workspaces kcp clusters in_order (record { path = "root:team-a"; cluster = "acl" })

map_workspaces_sorted_distinct_example :
    Pairwise (λ v w. text_less w.path v.path ≡ false) (map_workspaces kcp in_order clusters)
    × Pairwise (λ v w. v.cluster ≢ w.cluster) (map_workspaces kcp in_order clusters)
map_workspaces_sorted_distinct_example = map_workspaces_sorted_distinct kcp clusters in_order

-- An order in which the first two entries change places.
swap_two {ℓ} : {A : Type ℓ} → List A → List A
swap_two [] = []
swap_two (x ∷ []) = x ∷ []
swap_two (x ∷ y ∷ xs) = y ∷ x ∷ xs

swap_two-perm {ℓ} : {A : Type ℓ} (xs : List A) → Perm (swap_two xs) xs
unfolding swap_two
swap_two-perm [] = Perm.rfl
swap_two-perm (x ∷ []) = Perm.rfl
swap_two-perm (x ∷ y ∷ xs) = Perm.swap x y xs

abbrev swapped {ℓ} : {A : Type ℓ} → RangeOrder A
swapped = record { visit = swap_two; visit-perm = swap_two-perm }

abbrev two_clusters : List LogicalCluster
two_clusters = lc "acl" "root:team-a" "Ready" ∷ lc "bcl" "root:team-b" "Ready" ∷ []

abbrev team_a : String
team_a = "root:team-a"

abbrev team_b : String
team_b = "root:team-b"

other_paths : team_a ≢ team_b
unfolding String-discrete
other_paths e = true≢false (ap (λ s. s == team_a) e)

two_paths :
    (v w : Workspace)
    → LastListed (λ u. u.cluster) (Lists kcp) v two_clusters
    → LastListed (λ u. u.cluster) (Lists kcp) w two_clusters
    → v.path ≡ w.path
    → v.cluster ≡ w.cluster
unfolding lookup String-discrete path_of annotation
two_paths v w (here l _) (here m _) p = sym l.cluster_eq ∙ m.cluster_eq
two_paths v w (there (here l _)) (there (here m _)) p = sym l.cluster_eq ∙ m.cluster_eq
two_paths v w (here l _) (there (here m _)) p = absurd (other_paths (l.path_eq ∙ p ∙ sym m.path_eq))
two_paths v w (there (here l _)) (here m _) p =
    absurd (other_paths (m.path_eq ∙ sym p ∙ sym l.path_eq))
two_paths v w (there (there h)) _ p = elim h [ ]
two_paths v w _ (there (there h)) p = elim h [ ]

map_workspaces_order_irrelevant_example :
    map_workspaces kcp in_order two_clusters ≡ map_workspaces kcp swapped two_clusters
map_workspaces_order_irrelevant_example =
    map_workspaces_order_irrelevant kcp two_clusters two_paths in_order swapped

abbrev export : String → String → KcpApiExport
export path name = record {
  meta = record {
    name = name;
    annotations = (cluster_annotation, "c") ∷ (path_annotation, path) ∷ [];
  };
  resources = [];
  permission_claims = [];
  identity_hash = "";
}

abbrev pub exports : List KcpApiExport
exports = export "root:b" "e" ∷ export "root:a" "f" ∷ export "root:a" "e" ∷ []

e_is_no_slash : HasNoSlash "e"
e_is_no_slash = (λ h. absurd (omega (arith, ap code h)), tt)

f_is_no_slash : HasNoSlash "f"
f_is_no_slash = (λ h. absurd (omega (arith, ap code h)), tt)

pub no_slashes : AllHaveNoSlash kcp exports
no_slashes = (e_is_no_slash, (f_is_no_slash, (e_is_no_slash, tt)))

abbrev first_export : ApiExport
first_export = record {
  path = "root:a";
  cluster = "c";
  name = "e";
  identity_hash = "";
  resources = [];
  permission_claims = [];
}

mem-map_api_exports_example :
    Mem first_export (map_api_exports kcp in_order exports) ↔ LastNamed kcp first_export exports
mem-map_api_exports_example = mem-map_api_exports kcp exports no_slashes in_order first_export

map_api_exports_sorted_distinct_example :
    Pairwise (λ a b. export_less b a ≡ false) (map_api_exports kcp in_order exports)
    × Pairwise (λ a b. (a.path ≡ b.path) → a.name ≢ b.name) (map_api_exports kcp in_order exports)
map_api_exports_sorted_distinct_example = map_api_exports_sorted_distinct kcp exports in_order

map_api_exports_order_irrelevant_example :
    map_api_exports kcp in_order exports ≡ map_api_exports kcp swapped exports
map_api_exports_order_irrelevant_example =
    map_api_exports_order_irrelevant kcp exports in_order swapped
