-- ===== src/Datasource/Reader.antt =====
-- pkg/datasource/reader.go: the datasource that lists the objects of every shard.
use kcp_marketplace.Base.{List}
use kcp_marketplace.Base.Sort.{RangeOrder}
use kcp_marketplace.Errors.{Ctx, Result, ok, ◌>>=◌}
use kcp_marketplace.Datasource.{Workspace, ApiExport, Interface}
use kcp_marketplace.Datasource.Mappers.{
  Kcp, LogicalCluster, KcpApiExport, map_workspaces, map_api_exports,
}

-- `AggregateCache.List`, for the two kinds of list, as it answers at one moment.
pub record AggregateList : Type 0 where
  pub logical_clusters : Ctx → Result (List LogicalCluster)
  pub api_exports : Ctx → Result (List KcpApiExport)

-- `Workspaces` and `APIExports` of `Reader`.
unfoldable pub reader :
    Kcp → RangeOrder Workspace → RangeOrder ApiExport → AggregateList → Interface
reader kcp ws_order ax_order agg = record {
  workspaces = λ ctx. agg.logical_clusters ctx >>= λ items. ok (map_workspaces kcp ws_order items);
  api_exports = λ ctx. agg.api_exports ctx >>= λ items. ok (map_api_exports kcp ax_order items);
}
