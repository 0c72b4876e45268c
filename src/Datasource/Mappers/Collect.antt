-- ===== src/Datasource/Mappers/Collect.antt =====
-- What the loops of both mappers share: a map filled from a list of items, its values visited in
-- any order and sorted.
use mathlib.Core.HLevel.{¬_prop}
use mathlib.Core.List.{foldl}
use mathlib.Core.List.Perm
use mathlib.Core.Option.{some-injective}
use kcp_marketplace.Base.{
  String, ◌≡◌, refl, subst, sym, ◌∙◌, ap, ◌≢◌, ◌⊎◌, inl, inr, ◌↔◌, Bool, false, some, List, [], ◌∷◌,
  Mem, Perm, arith, String-discrete,
}
use kcp_marketplace.Base.GoMap.{
  GoMap, lookup, insert, values, NodupKeys, IsKeyed, DistinctKeys, lookup-insert, insert-NodupKeys,
  insert-IsKeyed, lookup_of_mem-values, mem-values_of_lookup, values-DistinctKeys,
}
use kcp_marketplace.Base.Sort.{
  RangeOrder, IsLess, sort_slice, sort_slice-perm, sort_slice-eq_of_perm,
}

module _ {Item V : Type 0} (key : V → String) (Lists : Item → V → Type 0) where
  -- No item is listed under the key.
  abbrev pub Unlisted : String → List Item → Type 0
  Unlisted k [] = Unit
  Unlisted k (item ∷ items) = ((v : V) → Lists item v → key v ≢ k) × Unlisted k items

  -- Some item is listed as the value, and none after it under the value's key.
  pub data LastListed (v : V) : List Item → Type 0 where
    here :
        {item : Item} {items : List Item}
        → Lists item v
        → Unlisted (key v) items
        → LastListed v (item ∷ items)
    there : {item : Item} {items : List Item} → LastListed v items → LastListed v (item ∷ items)

module _ {Item V : Type 0} (key : V → String) (Lists : Item → V → Type 0)
    (add : GoMap V → Item → GoMap V) where
  -- An item is listed as one value and goes under its key, or it is left out.
  abbrev pub Adds : Type 0
  Adds =
      (m : GoMap V) (item : Item)
      → ((v : V) × Lists item v
          × ((w : V) → Lists item w → w ≡ v)
          × (add m item ≡ insert (key v) v m))
        ⊎ (((v : V) → ¬ Lists item v) × (add m item ≡ m))

  module _ (adds : Adds) where
    collect-IsKeyed :
        (m : GoMap V) (items : List Item) → IsKeyed key m → IsKeyed key (foldl add m items)
    collect-IsKeyed m [] h = h
    collect-IsKeyed m (item ∷ items) h = collect-IsKeyed (add m item) items (elim (adds m item) [
      | inl (v, _, _, e) ↦ rw e (insert-IsKeyed key v m h)
      | inr (_, e) ↦ rw e h
    ])

    collect-NodupKeys :
        (m : GoMap V) (items : List Item) → NodupKeys m → NodupKeys (foldl add m items)
    collect-NodupKeys m [] h = h
    collect-NodupKeys m (item ∷ items) h =
        collect-NodupKeys (add m item) items (elim (adds m item) [
          | inl (v, _, _, e) ↦ rw e (insert-NodupKeys (key v) v m h)
          | inr (_, e) ↦ rw e h
        ])

    lookup-collect_of_Unlisted :
        (k : String) (m : GoMap V) (items : List Item)
        → Unlisted key Lists k items
        → lookup k (foldl add m items) ≡ lookup k m
    lookup-collect_of_Unlisted k m [] h = refl
    lookup-collect_of_Unlisted k m (item ∷ items) (not_here, h) =
        lookup-collect_of_Unlisted k (add m item) items h ∙ elim (adds m item) [
          | inl (v, l, _, e) ↦ ground (arith, e, lookup-insert k (key v) v m, not_here v l)
          | inr (_, e) ↦ rw e
        ]

    lookup-collect_of_LastListed :
        (v : V) (m : GoMap V) {items : List Item}
        → LastListed key Lists v items
        → lookup (key v) (foldl add m items) ≡ some v
    lookup-collect_of_LastListed v m (here {item} {items} l h) =
        lookup-collect_of_Unlisted (key v) (add m item) items h ∙ elim (adds m item) [
          | inl (w, _, unique, e) ↦
              ground (arith, e, lookup-insert (key v) (key w) w m, unique v l, ap key (unique v l))
          | inr (never, _) ↦ absurd (never v l)
        ]
    lookup-collect_of_LastListed v m (there {item} later) =
        lookup-collect_of_LastListed v (add m item) later

    collect_cases :
        (k : String) (v : V) (m : GoMap V) (items : List Item)
        → lookup k (foldl add m items) ≡ some v
        → (LastListed key Lists v items × (key v ≡ k))
          ⊎ (Unlisted key Lists k items × (lookup k m ≡ some v))
    collect_cases k v m [] e = inr (tt, e)
    collect_cases k v m (item ∷ items) e = elim (collect_cases k v (add m item) items e) [
      | inl (last, same) ↦ inl (there last, same)
      | inr (rest, found) ↦ elim (adds m item) [
        | inl (w, l, unique, added) ↦ elim (String-discrete k (key w)) [
          | yes p ↦
              let found_v : w ≡ v = ground (arith, lookup-insert k (key w) w m) in
              let keys : key v ≡ k = ap key (sym found_v) ∙ sym p in
              inl (
                here (subst (Lists item) found_v l)
                    (subst (λ j. Unlisted key Lists j items) (sym keys) rest),
                keys,
              )
          | no p ↦ inr (
            (λ u listed same. p (sym same ∙ ap key (unique u listed)), rest),
            ground (arith, lookup-insert k (key w) w m),
          )
        ]
        | inr (never, added) ↦ inr ((λ w l _. never w l, rest), rw added at found)
      ]
    ]

    module _ (Vset : IsSet V) (items : List Item) where
      abbrev filled : GoMap V
      filled = foldl add [] items

      filled-IsKeyed : IsKeyed key filled
      filled-IsKeyed = collect-IsKeyed [] items tt

      filled-NodupKeys : NodupKeys filled
      filled-NodupKeys = collect-NodupKeys [] items tt

      -- Two values of the map with one key are one value.
      values-key_inj :
          (v w : V) → Mem v (values filled) → Mem w (values filled) → key v ≡ key w → v ≡ w
      values-key_inj v w hv hw e =
          let found_v = lookup_of_mem-values key Vset v filled filled-IsKeyed filled-NodupKeys hv in
          let found_w = lookup_of_mem-values key Vset w filled filled-IsKeyed filled-NodupKeys hw in
          some-injective v w (sym found_v ∙ ap (λ k. lookup k filled) e ∙ found_w)

      mem-values-LastListed : (v : V) → Mem v (values filled) → LastListed key Lists v items
      unfolding lookup
      mem-values-LastListed v h =
          elim (collect_cases (key v) v [] items
            (lookup_of_mem-values key Vset v filled filled-IsKeyed filled-NodupKeys h)) [
              | inl (last, _) ↦ last
              | inr (_, e) ↦ absurd (cc)
            ]

      module _ (less : V → V → Bool) where
        abbrev sorted_values : RangeOrder V → List V
        sorted_values order = sort_slice less (order.visit (values filled))

        sorted_values-perm : (order : RangeOrder V) → Perm (sorted_values order) (values filled)
        sorted_values-perm order =
            Perm.trans (sort_slice-perm less _) (order.visit-perm (values filled))

        -- The result holds the values that are listed last under their keys, and no others.
        pub mem-collect :
            (order : RangeOrder V) (v : V)
            → Mem v (sorted_values order) ↔ LastListed key Lists v items
        mem-collect order v = (
          λ h. mem-values-LastListed v ((Perm.mem_iff (sorted_values-perm order)).0 h),
          λ last.
              (Perm.mem_iff (sorted_values-perm order)).1
                (mem-values_of_lookup (key v) v filled (lookup-collect_of_LastListed v [] last)),
        )

        -- No two values of the result have the same key.
        pub collect-DistinctKeys : (order : RangeOrder V) → DistinctKeys key (sorted_values order)
        collect-DistinctKeys order =
            Perm.pairwise (λ a b. ¬_prop) (λ a b differ same. differ (sym same))
              (Perm.symm (sorted_values-perm order))
              (values-DistinctKeys key Vset filled filled-IsKeyed filled-NodupKeys)

        -- If ties have the same key, the order of the visit does not matter.
        pub collect-eq_of_ties :
            IsLess less
            → ((v w : V)
                → LastListed key Lists v items
                → LastListed key Lists w items
                → less v w ≡ false
                → less w v ≡ false
                → key v ≡ key w)
            → (order order' : RangeOrder V) → sorted_values order ≡ sorted_values order'
        collect-eq_of_ties lawful ties order order' =
            sort_slice-eq_of_perm less lawful (order.visit (values filled))
              (order'.visit (values filled))
              (λ v hv w hw h k.
                let v_in = (Perm.mem_iff (order.visit-perm (values filled))).0 hv in
                let w_in = (Perm.mem_iff (order.visit-perm (values filled))).0 hw in
                values-key_inj v w v_in w_in
                  (ties v w (mem-values-LastListed v v_in) (mem-values-LastListed w w_in) h k))
              (Perm.trans (order.visit-perm (values filled))
                (Perm.symm (order'.visit-perm (values filled))))
