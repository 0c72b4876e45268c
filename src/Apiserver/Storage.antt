-- ===== src/Apiserver/Storage.antt =====
-- pkg/apiserver/storage.go: a read-only storage that makes its lists anew for each request.
use mathlib.Core.List.{append-nil, append_assoc}
use kcp_marketplace.Base.{
  ap, String, ◌≡◌, ◌⊎◌, inl, inr, refl, sym, ◌∙◌, Bool, true, false, Option, none, some, arith,
  List, [], ◌∷◌, ◌++◌, map, if◌then◌else◌, Bool-cases, Option-cases,
}
use kcp_marketplace.Errors.{Ctx, Error, Result, ok, err}
use kcp_marketplace.Sar.{User}
use kcp_marketplace.Api.{Object}

-- `metav1.TableColumnDefinition`, with the fields that the program sets.
pub record Column : Type 0 where
  pub name : String
  pub type : String
  pub format : String

pub record StorageConfig : Type 0 where
  pub singular : String
  pub kind : String
  pub new : Object
  pub new_list : Object
  pub list : Ctx → User → Result Object
  pub columns : List Column
  pub row : Object → List String

-- What the storage's methods other than `List` and `ConvertToTable` answer.
pub record Storage : Type 0 where
  pub cfg : StorageConfig
  pub namespace_scoped : Bool

unfoldable pub new_storage : StorageConfig → Storage
new_storage cfg = record { cfg = cfg; namespace_scoped = false }

-- A request's context carries the user that the handler chain has authenticated.
unfoldable pub list : Storage → Ctx → User → Result Object
list s ctx u = s.cfg.list ctx u

-- k8s.io/apimachinery/pkg/api/meta. `each_list_item` hands the items on one by one, and may fail.
pub record Meta : Type 0 where
  pub is_list_type : Object → Bool
  pub list_accessor : Object → Option (String × String)  -- resource version and continue
  pub each_list_item : Object → List Object × Option Error
  pub accessor : Object → Option String  -- resource version

pub record TableRow : Type 0 where
  pub cells : List String
  pub object : Object

pub record Table : Type 0 where
  pub columns : List Column
  pub resource_version : String
  pub continue : String
  pub rows : List TableRow

unfoldable pub table_row : StorageConfig → Object → TableRow
table_row cfg object = record { cells = cfg.row object; object = object }

-- The function given to `EachListItem`, on each item.
unfoldable pub append_rows : StorageConfig → List Object → Table → Table
append_rows cfg [] t = t
append_rows cfg (o ∷ os) t =
    append_rows cfg os (record t { rows = t.rows ++ (table_row cfg o ∷ []) })

abbrev pub blank_table : StorageConfig → Table
blank_table cfg = record { columns = cfg.columns; resource_version = ""; continue = ""; rows = [] }

module _ (m : Meta) where
  -- The table before its rows, with the metadata of a list, or of an object.
  unfoldable pub list_table : StorageConfig → Object → Table
  list_table cfg object = elim (m.list_accessor object) [
    | some (version, token) ↦ record (blank_table cfg) {
      resource_version = version;
      continue = token;
    }
    | none ↦ blank_table cfg
  ]

  unfoldable pub object_table : StorageConfig → Object → Table
  object_table cfg object = elim (m.accessor object) [
    | some version ↦ record (blank_table cfg) { resource_version = version }
    | none ↦ blank_table cfg
  ]

  unfoldable pub convert_to_table : Storage → Object → Result Table
  convert_to_table s object =
      if m.is_list_type object
      then (let (items, failed) = m.each_list_item object in
          elim failed [
            | some e ↦ err e
            | none ↦ ok (append_rows s.cfg items (list_table s.cfg object))
          ])
      else ok (append_rows s.cfg (object ∷ []) (object_table s.cfg object))

  append_rows-rows :
      (cfg : StorageConfig) (os : List Object) (t : Table)
      → (append_rows cfg os t).rows ≡ t.rows ++ map (table_row cfg) os
  unfolding append_rows
  append_rows-rows cfg [] t = sym (append-nil t.rows)
  append_rows-rows cfg (o ∷ os) t =
      append_rows-rows cfg os (record t { rows = t.rows ++ (table_row cfg o ∷ []) })
      ∙ append_assoc t.rows (table_row cfg o ∷ []) (map (table_row cfg) os)

  append_rows-columns :
      (cfg : StorageConfig) (os : List Object) (t : Table)
      → (append_rows cfg os t).columns ≡ t.columns
  unfolding append_rows
  append_rows-columns cfg [] t = refl
  append_rows-columns cfg (o ∷ os) t =
      append_rows-columns cfg os (record t { rows = t.rows ++ (table_row cfg o ∷ []) })

  -- The objects that get a row.
  unfoldable pub shown : Object → List Object
  shown object = if m.is_list_type object then (m.each_list_item object).0 else object ∷ []

  IsBlank : StorageConfig → Table → Type 0
  IsBlank cfg t = (t.columns ≡ cfg.columns) × (t.rows ≡ [])

  list_table-IsBlank : (cfg : StorageConfig) (object : Object) → IsBlank cfg (list_table cfg object)
  unfolding list_table IsBlank
  list_table-IsBlank cfg object = elim (Option-cases (m.list_accessor object)) [
    | inl bare ↦ (ground arith, ground arith)
    | inr (_, found) ↦ (ground arith, ground arith)
  ]

  object_table-IsBlank :
      (cfg : StorageConfig) (object : Object) → IsBlank cfg (object_table cfg object)
  unfolding object_table IsBlank
  object_table-IsBlank cfg object = elim (Option-cases (m.accessor object)) [
    | inl bare ↦ (ground arith, ground arith)
    | inr (_, found) ↦ (ground arith, ground arith)
  ]

  append_rows-IsBlank :
      (cfg : StorageConfig) (os : List Object) (t : Table)
      → IsBlank cfg t
      → ((append_rows cfg os t).columns ≡ cfg.columns)
        × ((append_rows cfg os t).rows ≡ map (table_row cfg) os)
  unfolding IsBlank
  append_rows-IsBlank cfg os t (columns, rows) = (
    append_rows-columns cfg os t ∙ columns,
    append_rows-rows cfg os t ∙ ap (λ before. before ++ map (table_row cfg) os) rows,
  )

  -- A table has the storage's columns and, in order, one row for each item of a list, or the one
  -- of an object that is no list; the only error is that of the walk over a list's items.
  pub convert_to_table_cases :
      (s : Storage) (object : Object)
      → ((t : Table) × (convert_to_table s object ≡ ok t)
          × (t.columns ≡ s.cfg.columns)
          × (t.rows ≡ map (table_row s.cfg) (shown object)))
        ⊎ ((e : Error) × (convert_to_table s object ≡ err e)
            × (m.is_list_type object ≡ true)
            × ((m.each_list_item object).1 ≡ some e))
  unfolding convert_to_table shown
  convert_to_table_cases s object = elim (Bool-cases (m.is_list_type object)) [
    | inr single ↦
        let table = object_table s.cfg object in
        let (columns, rows) =
          append_rows-IsBlank s.cfg (object ∷ []) table (object_table-IsBlank s.cfg object) in
        inl (append_rows s.cfg (object ∷ []) table, ground arith, columns, rows ∙ ground arith)
    | inl is_list ↦ elim (Option-cases (m.each_list_item object).1) [
      | inr (e, failed) ↦ inr (e, ground arith, is_list, failed)
      | inl fine ↦
          let table = list_table s.cfg object in
          let items = (m.each_list_item object).0 in
          let (columns, rows) =
            append_rows-IsBlank s.cfg items table (list_table-IsBlank s.cfg object) in
          inl (append_rows s.cfg items table, ground arith, columns, rows ∙ ground arith)
    ]
  ]
