-- ===== src/Tests/EndToEnd.antt =====
-- What a user is shown of three logical clusters and three exports.
use kcp_marketplace.Base.{◌≡◌, refl, ◌↔◌, true, List, Mem}
use kcp_marketplace.Base.Sort.{in_order}
use kcp_marketplace.Errors.{live, ok}
use kcp_marketplace.Sar.{access_spec, bind_spec, with_user}
use kcp_marketplace.Datasource.{Workspace, ApiExport}
use kcp_marketplace.Datasource.Mappers.Collect.{LastListed}
use kcp_marketplace.Datasource.Mappers.Workspaces.{Lists}
use kcp_marketplace.Datasource.Mappers.Exports.{LastNamed}
use kcp_marketplace.Datasource.Reader.{AggregateList, reader}
use kcp_marketplace.Api.{AccessibleWorkspace, BindableApiExport}
use kcp_marketplace.Main.Filter.{sar_reviewer}
use kcp_marketplace.Main.Lists.{
  reviewed, accessible_workspace, bindable_api_export, list_accessible_workspaces,
  list_bindable_api_exports,
}
use kcp_marketplace.Main.Lists.EndToEnd.{user_sees, user_can_bind}
use kcp_marketplace.Tests.Lists.{
  digest, digits, policy, apart, client, ann, moment, in_turn, in_turn-FollowsPolicy,
}
use kcp_marketplace.Tests.Mappers.{kcp, clusters, exports, no_slashes}

abbrev shards : AggregateList
shards = record { logical_clusters = λ _. ok clusters; api_exports = λ _. ok exports }

user_sees_example :
    (out : List AccessibleWorkspace) × (list_accessible_workspaces
        (reader kcp in_order in_order shards)
        (reviewed (sar_reviewer digest client) (in_turn moment))
        live
        ann
      ≡ ok out)
    × ((w : Workspace)
        → Mem (accessible_workspace w) out ↔ (
            LastListed (λ v. v.cluster) (Lists kcp) w clusters
            × (policy w.cluster (with_user ann access_spec) ≡ true)))
user_sees_example =
    user_sees digest policy digits apart client (λ _ _ _. refl) kcp in_order in_order shards live
      ann clusters (in_turn moment) (in_turn-FollowsPolicy _) refl

user_can_bind_example :
    (out : List BindableApiExport) × (list_bindable_api_exports
        (reader kcp in_order in_order shards)
        (reviewed (sar_reviewer digest client) (in_turn moment))
        live
        ann
      ≡ ok out)
    × ((a : ApiExport)
        → Mem (bindable_api_export a) out ↔ (
            LastNamed kcp a exports × (policy a.cluster (with_user ann (bind_spec a.name)) ≡ true)))
user_can_bind_example =
    user_can_bind digest policy digits apart client (λ _ _ _. refl) kcp in_order in_order shards
      live ann exports (in_turn moment) no_slashes (in_turn-FollowsPolicy _) refl
