-- ===== src/Datasource/Mappers/Workspaces.antt =====
-- What `mapWorkspaces` of pkg/datasource/mappers.go returns.
use mathlib.Core.HLevel.{hedberg}
use kcp_marketplace.Base.{
  ◌≡◌, refl, sym, ◌∙◌, ◌≢◌, inl, inr, ◌↔◌, false, List, Mem, Pairwise, arith, String-discrete,
}
use kcp_marketplace.Base.Sort.{RangeOrder, IsLess, sort_slice-IsSorted}
use kcp_marketplace.Base.Text.{text_less, text_less_asymm, text_less_negtrans, text_less_tie}
use kcp_marketplace.Datasource.{Workspace}
use kcp_marketplace.Datasource.Mappers.{
  Kcp, LogicalCluster, path_of, workspace_less, add_workspace, map_workspaces,
}
use kcp_marketplace.Datasource.Mappers.Collect.{
  LastListed, Adds, mem-collect, collect-DistinctKeys, collect-eq_of_ties,
}

pub Workspace-discrete : Discrete Workspace
Workspace-discrete = hlevel String-discrete

workspace_less-IsLess : IsLess workspace_less
workspace_less-IsLess = record {
  asymm = λ v w. text_less_asymm v.path w.path;
  negtrans = λ u v w. text_less_negtrans u.path v.path w.path;
}

module _ (kcp : Kcp) where
  -- A logical cluster stands for a workspace if it is ready and has a path and a cluster name.
  pub record Lists (item : LogicalCluster) (w : Workspace) : Type 0 where
    pub path_eq : path_of item.meta ≡ w.path
    pub cluster_eq : kcp.cluster_of item.meta ≡ w.cluster
    pub has_path : w.path ≢ ""
    pub has_cluster : w.cluster ≢ ""
    pub is_ready : item.phase ≡ kcp.phase_ready

  add_workspace-Adds : Adds (λ w. w.cluster) Lists (add_workspace kcp)
  unfolding add_workspace
  add_workspace-Adds m item = elim (String-discrete (path_of item.meta) "") [
    | yes no_path ↦ inr (λ w l. l.has_path (sym l.path_eq ∙ no_path), ground arith)
    | no path ↦ elim (String-discrete (kcp.cluster_of item.meta) "") [
      | yes no_cluster ↦ inr (λ w l. l.has_cluster (sym l.cluster_eq ∙ no_cluster), ground arith)
      | no cluster ↦ elim (String-discrete item.phase kcp.phase_ready) [
        | no starting ↦ inr (λ w l. starting l.is_ready, ground arith)
        | yes ready ↦ inl (
          record { path = path_of item.meta; cluster = kcp.cluster_of item.meta },
          record {
            path_eq = refl;
            cluster_eq = refl;
            has_path = path;
            has_cluster = cluster;
            is_ready = ready;
          },
          λ w l. ground (arith, l.path_eq, l.cluster_eq),
          ground arith,
        )
      ]
    ]
  ]

  module _ (items : List LogicalCluster) where
    -- The result of `mapWorkspaces` holds, for each cluster name, the last ready logical cluster
    -- with a path that is listed under it, and nothing else.
    pub mem-map_workspaces :
        (order : RangeOrder Workspace) (w : Workspace)
        → Mem w (map_workspaces kcp order items) ↔ LastListed (λ v. v.cluster) Lists w items
    unfolding map_workspaces
    mem-map_workspaces =
        mem-collect (λ v. v.cluster) Lists (add_workspace kcp) add_workspace-Adds
          (hedberg Workspace-discrete) items workspace_less

    -- The result of `mapWorkspaces` ascends by path, and no cluster name occurs twice in it.
    pub map_workspaces_sorted_distinct :
        (order : RangeOrder Workspace)
        → Pairwise (λ v w. text_less w.path v.path ≡ false) (map_workspaces kcp order items)
          × Pairwise (λ v w. v.cluster ≢ w.cluster) (map_workspaces kcp order items)
    unfolding map_workspaces
    map_workspaces_sorted_distinct order = (
      sort_slice-IsSorted workspace_less workspace_less-IsLess _,
      collect-DistinctKeys (λ v. v.cluster) Lists (add_workspace kcp) add_workspace-Adds
          (hedberg Workspace-discrete) items workspace_less order,
    )

    -- If no two listed clusters share a path, the order in which Go visits the map has no
    -- influence on the result of `mapWorkspaces`.
    pub map_workspaces_order_irrelevant :
        ((v w : Workspace)
          → LastListed (λ u. u.cluster) Lists v items
          → LastListed (λ u. u.cluster) Lists w items
          → v.path ≡ w.path
          → v.cluster ≡ w.cluster)
        → (order order' : RangeOrder Workspace)
        → map_workspaces kcp order items ≡ map_workspaces kcp order' items
    unfolding map_workspaces
    map_workspaces_order_irrelevant one_cluster =
        collect-eq_of_ties (λ v. v.cluster) Lists (add_workspace kcp) add_workspace-Adds
          (hedberg Workspace-discrete) items workspace_less workspace_less-IsLess
          (λ v w last_v last_w h k. one_cluster v w last_v last_w (text_less_tie v.path w.path h k))
