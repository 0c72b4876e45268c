-- ===== src/Datasource/Mappers/Exports.antt =====
-- What `mapAPIExports` of pkg/datasource/mappers.go returns.
use mathlib.Core.HLevel.{hedberg}
use mathlib.Core.List.Pairwise
use mathlib.Core.Path.{ap₂}
use kcp_marketplace.Base.{
  String, ◌≡◌, refl, sym, ◌∙◌, subst, ◌≢◌, inl, inr, ◌↔◌, false, List, [], ◌∷◌, map, Mem, Pairwise,
  arith, String-discrete,
}
use kcp_marketplace.Base.Sort.{RangeOrder, IsLess, sort_slice-IsSorted}
use kcp_marketplace.Base.Text.{text_less_asymm, text_less_negtrans, text_less_tie}
use kcp_marketplace.Datasource.{ApiExport}
use kcp_marketplace.Datasource.Mappers.{
  Kcp, KcpApiExport, path_of, resource_of, claim_of, export_less, export_key, add_export,
  map_api_exports,
}
use kcp_marketplace.Datasource.Mappers.ExportKey.{HasNoSlash, export_key_inj}
use kcp_marketplace.Datasource.Mappers.Collect
use kcp_marketplace.Datasource.Mappers.Collect.{
  Unlisted, LastListed, Adds, mem-collect, collect-DistinctKeys, collect-eq_of_ties,
}

pub ApiExport-discrete : Discrete ApiExport
ApiExport-discrete = hlevel String-discrete

export_less-IsLess : IsLess export_less
export_less-IsLess = record {
  asymm = λ a b h. ground (arith, text_less_asymm a.path b.path, text_less_asymm a.name b.name);
  negtrans = λ a b c h k. ground (
    arith,
    text_less_negtrans a.path b.path c.path,
    text_less_negtrans a.name b.name c.name,
    text_less_tie a.path b.path,
    text_less_tie b.path c.path,
    text_less_asymm a.path b.path,
  );
}

-- Exports that the order does not tell apart have the same path and name.
export_less_tie :
    (a b : ApiExport)
    → export_less a b ≡ false
    → export_less b a ≡ false
    → (a.path ≡ b.path) × (a.name ≡ b.name)
export_less_tie a b h k = ground (arith, text_less_tie a.path b.path, text_less_tie a.name b.name)

abbrev pub key_of : ApiExport → String
key_of a = export_key a.path a.name

module _ (kcp : Kcp) where
  -- An export is offered if it has a path and a name; its contents are those of the item.
  pub record Lists (item : KcpApiExport) (a : ApiExport) : Type 0 where
    pub path_eq : path_of item.meta ≡ a.path
    pub cluster_eq : kcp.cluster_of item.meta ≡ a.cluster
    pub name_eq : item.meta.name ≡ a.name
    pub identity_hash_eq : item.identity_hash ≡ a.identity_hash
    pub resources_eq : map resource_of item.resources ≡ a.resources
    pub claims_eq : map claim_of item.permission_claims ≡ a.permission_claims
    pub has_path : a.path ≢ ""
    pub has_name : a.name ≢ ""

  add_export-Adds : Adds key_of Lists (add_export kcp)
  unfolding add_export
  add_export-Adds m item = elim (String-discrete (path_of item.meta) "") [
    | yes no_path ↦ inr (λ a l. l.has_path (sym l.path_eq ∙ no_path), ground arith)
    | no path ↦ elim (String-discrete item.meta.name "") [
      | yes no_name ↦ inr (λ a l. l.has_name (sym l.name_eq ∙ no_name), ground arith)
      | no named ↦ inl (
        offered,
        record {
          path_eq = refl;
          cluster_eq = refl;
          name_eq = refl;
          identity_hash_eq = refl;
          resources_eq = refl;
          claims_eq = refl;
          has_path = path;
          has_name = named;
        },
        λ a l. ground arith,
        ground arith,
      )
    ]
  ]
    where
      offered : ApiExport
      offered = record {
        path = path_of item.meta;
        cluster = kcp.cluster_of item.meta;
        name = item.meta.name;
        identity_hash = item.identity_hash;
        resources = map resource_of item.resources;
        permission_claims = map claim_of item.permission_claims;
      }

  module _ (items : List KcpApiExport) where
    -- The result holds, for each key, the last item that is listed under it, and nothing else.
    mem-map_api_exports_key :
        (order : RangeOrder ApiExport) (a : ApiExport)
        → Mem a (map_api_exports kcp order items) ↔ LastListed key_of Lists a items
    unfolding map_api_exports
    mem-map_api_exports_key =
        mem-collect key_of Lists (add_export kcp) add_export-Adds (hedberg ApiExport-discrete) items
          export_less

    -- The result of `mapAPIExports` ascends by path and then name, and no two exports in it
    -- share both.
    pub map_api_exports_sorted_distinct :
        (order : RangeOrder ApiExport)
        → Pairwise (λ a b. export_less b a ≡ false) (map_api_exports kcp order items)
          × Pairwise (λ a b. (a.path ≡ b.path) → a.name ≢ b.name) (map_api_exports kcp order items)
    unfolding map_api_exports
    map_api_exports_sorted_distinct order = (
      sort_slice-IsSorted export_less export_less-IsLess _,
      Pairwise.imp (λ a b differ p n. differ (ap₂ export_key p n))
          (collect-DistinctKeys key_of Lists (add_export kcp) add_export-Adds
            (hedberg ApiExport-discrete) items export_less order),
    )

    -- The order in which Go visits the map has no influence on the result of `mapAPIExports`.
    pub map_api_exports_order_irrelevant :
        (order order' : RangeOrder ApiExport)
        → map_api_exports kcp order items ≡ map_api_exports kcp order' items
    unfolding map_api_exports
    map_api_exports_order_irrelevant =
        collect-eq_of_ties key_of Lists (add_export kcp) add_export-Adds
          (hedberg ApiExport-discrete) items export_less export_less-IsLess
          (λ a b _ _ h k.
            let (paths, names) = export_less_tie a b h k in ap₂ export_key paths names)

  -- No item is offered with the path and the name.
  abbrev pub Unnamed : String → String → List KcpApiExport → Type 0
  Unnamed path name [] = Unit
  Unnamed path name (item ∷ items) =
      ((a : ApiExport) → Lists item a → a.path ≡ path → a.name ≢ name) × Unnamed path name items

  -- Some item is offered as the export, and none after it has its path and name.
  pub data LastNamed (a : ApiExport) : List KcpApiExport → Type 0 where
    here :
        {item : KcpApiExport} {items : List KcpApiExport}
        → Lists item a
        → Unnamed a.path a.name items
        → LastNamed a (item ∷ items)
    there :
        {item : KcpApiExport} {items : List KcpApiExport}
        → LastNamed a items
        → LastNamed a (item ∷ items)

  abbrev pub AllHaveNoSlash : List KcpApiExport → Type 0
  AllHaveNoSlash [] = Unit
  AllHaveNoSlash (item ∷ items) = HasNoSlash item.meta.name × AllHaveNoSlash items

  Unnamed-of_Unlisted :
      (path name : String) (items : List KcpApiExport)
      → Unlisted key_of Lists (export_key path name) items
      → Unnamed path name items
  Unnamed-of_Unlisted path name [] h = tt
  Unnamed-of_Unlisted path name (item ∷ items) (differ, h) =
      (λ a l p n. differ a l (ap₂ export_key p n), Unnamed-of_Unlisted path name items h)

  Unlisted-of_Unnamed :
      (path name : String) (items : List KcpApiExport)
      → HasNoSlash name
      → AllHaveNoSlash items
      → Unnamed path name items
      → Unlisted key_of Lists (export_key path name) items
  Unlisted-of_Unnamed path name [] clean all h = tt
  Unlisted-of_Unnamed path name (item ∷ items) clean (item_clean, all) (differ, h) = (
    λ a l same.
        let (paths, names) =
          export_key_inj a.path path a.name name (subst HasNoSlash l.name_eq item_clean) clean
            same in
        differ a l paths names,
    Unlisted-of_Unnamed path name items clean all h,
  )

  LastNamed-of_LastListed :
      {a : ApiExport} {items : List KcpApiExport}
      → LastListed key_of Lists a items
      → LastNamed a items
  LastNamed-of_LastListed {a} (Collect.here {items} l h) =
      here l (Unnamed-of_Unlisted a.path a.name items h)
  LastNamed-of_LastListed (Collect.there last) = there (LastNamed-of_LastListed last)

  LastListed-of_LastNamed :
      {a : ApiExport} {items : List KcpApiExport}
      → AllHaveNoSlash items
      → LastNamed a items
      → LastListed key_of Lists a items
  LastListed-of_LastNamed {a} clean (here {items} l h) =
      Collect.here l
        (Unlisted-of_Unnamed a.path a.name items (subst HasNoSlash l.name_eq clean.0) clean.1 h)
  LastListed-of_LastNamed clean (there last) = Collect.there (LastListed-of_LastNamed clean.1 last)

  -- If no name holds a slash, the result of `mapAPIExports` holds, for each path and name, the
  -- last item that is offered with them, with its contents, and nothing else.
  pub mem-map_api_exports :
      (items : List KcpApiExport)
      → AllHaveNoSlash items
      → (order : RangeOrder ApiExport) (a : ApiExport)
      → Mem a (map_api_exports kcp order items) ↔ LastNamed a items
  mem-map_api_exports items clean order a =
      let (to, from) = mem-map_api_exports_key items order a in
      (λ h. LastNamed-of_LastListed (to h), λ last. from (LastListed-of_LastNamed clean last))
