-- ===== src/Datasource/ShardConfig.antt =====
-- `shardConfig` of pkg/datasource/shardcontroller.go: how to dial a shard.
use kcp_marketplace.Base.{
  String, ◌≡◌, ◌≢◌, ◌⊎◌, inl, inr, arith, ◌==◌, if◌then◌else◌, String-discrete,
}
use kcp_marketplace.Errors.{no_base_url, bad_base_url, Result, ok, err}

-- Of `rest.Config`, what the package writes; `credentials` stands for all other fields.
pub record Config : Type 0 where
  pub host : String
  pub server_name : String
  pub credentials : String

pub record Shard : Type 0 where
  pub name : String
  pub base_url : String

-- `rest.CopyConfig`
abbrev pub copy_config : Config → Config
copy_config c = c

-- `net/url`: the host name of a URL, or why it is none.
module _ (hostname : String → Result String) where
  unfoldable pub shard_config : Config → String → Shard → Result Config
  shard_config base gateway_url shard =
      let base_url = shard.base_url in
      let cfg = copy_config base in
      if base_url == ""
      then err (no_base_url shard.name)
      else if gateway_url == ""
      then ok (record cfg { host = base_url })
      else elim (hostname base_url) [
        | err e ↦ err (bad_base_url shard.name base_url e)
        | ok host ↦ ok (record cfg { host = gateway_url; server_name = host })
      ]

  module _ (base : Config) (gateway_url : String) (shard : Shard) (cfg : Config)
      (made : shard_config base gateway_url shard ≡ ok cfg) where
    -- A configuration for a shard has the base credentials and comes of a shard with a URL.
    -- Without a gateway it dials that URL under the base server name; with one, it dials the
    -- gateway under the shard's host name.
    pub shard_config_dials :
        (cfg.credentials ≡ base.credentials)
        × (shard.base_url ≢ "")
        × (((gateway_url ≡ "") × (cfg.host ≡ shard.base_url) × (cfg.server_name ≡ base.server_name))
            ⊎ ((gateway_url ≢ "")
                × (cfg.host ≡ gateway_url)
                × (hostname shard.base_url ≡ ok cfg.server_name)))
    unfolding shard_config
    shard_config_dials = elim (String-discrete shard.base_url "") [
      | yes unset ↦ absurd (ground arith)
      | no set ↦ elim (String-discrete gateway_url "") [
        | yes direct ↦ (ground arith, set, inl (direct, ground arith, ground arith))
        | no via ↦ (ground arith, set, inr (via, ground arith, ground arith))
      ]
    ]
