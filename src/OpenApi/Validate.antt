-- ===== src/OpenApi/Validate.antt =====
-- Whether a JSON value is as a published schema says. It is strict: a field of an object has to be
-- declared, and `null` is no value of any type.
use kcp_marketplace.Base.{
  String, ◌≡◌, refl, arith, Bool, String-discrete, true, false, ◌&&◌, none, some, List, [], ◌∷◌,
  ◌==◌, if◌then◌else◌,
}
use kcp_marketplace.Api.Json.{
  Json, null, str, array, object, Elements, no_elements, item, Fields, no_fields, field, optional,
}
use kcp_marketplace.OpenApi.{
  kind, as_told_by, Schema, schema, Properties, no_properties, property, Element, no_element,
  element, anything,
}
use kcp_marketplace.OpenApi.Closed.{Definitions, find}

unfoldable pub property_of : String → Properties → Element → Element
property_of name no_properties more = more
property_of name (property n s rest) more =
    let later = property_of name rest more in if name == n then element s else later

-- A field is a declared property, or a value of the map.
unfoldable pub field_of : String → Schema → Element
field_of name (schema p fields items more) = property_of name fields more

unfoldable pub items_of : Schema → Element
items_of (schema p fields items more) = items

unfoldable pub required_of : Schema → List String
required_of (schema p fields items more) = p.required

is_among : String → List String → Bool
is_among x [] = false
is_among x (y ∷ ys) = let later = is_among x ys in if x == y then true else later

unfoldable pub is_of : String → Schema → Bool
unfolding is_among
is_of type (schema p fields items more) = elim p.type [
  | kind types _ ↦ is_among type types
  | as_told_by _ ↦ false
]

unfoldable pub has_field : String → Fields → Bool
has_field name no_fields = false
has_field name (field n _ rest) =
    let later = has_field name rest in if name == n then true else later

unfoldable pub has_all : List String → Fields → Bool
unfolding has_field
has_all [] fs = true
has_all (name ∷ rest) fs = has_field name fs && has_all rest fs

pub has_all-field :
    (names : List String) (name : String) (j : Json) (fs : Fields)
    → has_all names fs ≡ true
    → has_all names (field name j fs) ≡ true
unfolding has_all has_field
has_all-field [] name j fs h = refl
has_all-field (n ∷ rest) name j fs h =
    let later = has_all-field rest name j fs (ground arith) in ground arith

pub has_all-optional :
    (names : List String) (name value : String) (fs : Fields)
    → has_all names fs ≡ true
    → has_all names (optional name value fs) ≡ true
unfolding optional
has_all-optional names name value fs h = elim (String-discrete value "") [
  | yes empty ↦ ground arith
  | no full ↦ let all = has_all-field names name (str value) fs h in ground arith
]

module _ (t : Definitions) where
  -- A reference stands for the schema of its definition; without one there is nothing to conform to.
  unfoldable pub resolve : Schema → Schema
  resolve (schema p fields items more) = elim p.reference [
    | none ↦ schema p fields items more
    | some name ↦ elim (find name t) [ some d ↦ d.schema | none ↦ anything ]
  ]

  unfoldable mutual
    pub conforms : Json → Schema → Bool
    conforms null s = false
    conforms (str _) s = is_of "string" (resolve s)
    conforms (array xs) s = is_of "array" (resolve s) && elements_conform xs (items_of (resolve s))
    conforms (object fs) s =
        is_of "object" (resolve s)
        && (has_all (required_of (resolve s)) fs && fields_conform fs (resolve s))

    pub elements_conform : Elements → Element → Bool
    elements_conform no_elements e = true
    elements_conform (item j js) e =
        elim e [ no_element ↦ false | element s ↦ conforms j s ] && elements_conform js e

    pub fields_conform : Fields → Schema → Bool
    fields_conform no_fields s = true
    fields_conform (field name j rest) s =
        elim (field_of name s) [ no_element ↦ false | element e ↦ conforms j e ]
        && fields_conform rest s
