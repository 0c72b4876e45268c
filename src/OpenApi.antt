-- ===== src/OpenApi.antt =====
-- pkg/generated/openapi/zz_generated.openapi.go: the schemas that the server publishes. Descriptions,
-- which only people read, are left out; a field that Go leaves at its zero value has it here.
pub mod Schemas
pub mod Definitions
pub mod Closed
pub mod Validate
pub mod Fields
pub mod Served
use kcp_marketplace.Base.{
  ℕ, String, ◌<>◌, ◌≡◌, Bool, Option, none, some, List, [], ◌∷◌, ◌++◌, String-discrete,
}
use kcp_marketplace.Base.GoMap.{GoMap}

-- The name of a definition: a text, or what `OpenAPIModelName` returns for a type of a package of
-- k8s.io/apimachinery, which is another name for each type.
pub data ModelName : Type 0 where
  named : String → ModelName
  model : String → String → ModelName

unfoldable pub ModelName-discrete : Discrete ModelName
ModelName-discrete = hlevel String-discrete

abbrev pub marketplace : String → ModelName
marketplace name = named ("github.com/ntnn/kcp-marketplace/apis/marketplace/v1alpha1." <> name)

-- `Type` and `Format`, or what the methods of a k8s type say that they are.
pub data Kind : Type 0 where
  kind : List String → String → Kind
  as_told_by : ModelName → Kind

pub data Default : Type 0 where
  not_given : Default
  given : String → Default
  number : ℕ → Default
  boolean : Bool → Default
  empty_object : Default

pub data Extension : Type 0 where
  text : String → Extension
  texts : List String → Extension

-- `spec.SchemaProps` and `spec.VendorExtensible`, but for the schemas in them. The callback `ref`
-- makes a reference of a name; here it is that name.
pub record Props : Type 0 where
  pub type : Kind
  pub default : Default
  pub reference : Option ModelName
  pub required : List String
  pub extensions : GoMap Extension

mutual
  -- The properties, the schema of an array's items, and the one of a map's values.
  pub data Schema : Type 0 where
    schema : Props → Properties → Element → Element → Schema

  pub data Properties : Type 0 where
    no_properties : Properties
    property : String → Schema → Properties → Properties

  pub data Element : Type 0 where
    no_element : Element
    element : Schema → Element

abbrev blank : Props
blank = record {
  type = kind [] "";
  default = not_given;
  reference = none;
  required = [];
  extensions = [];
}

abbrev typed : String → Props
typed type = record blank { type = kind (type ∷ []) "" }

abbrev pub anything : Schema
anything = schema blank no_properties no_element no_element

abbrev pub scalar : String → String → Schema
scalar type format =
    schema (record blank { type = kind (type ∷ []) format }) no_properties no_element no_element

abbrev pub text_schema : Schema
text_schema = scalar "string" ""

abbrev pub told_by : ModelName → Schema
told_by name = schema (record blank { type = as_told_by name }) no_properties no_element no_element

abbrev pub refers_to : ModelName → Schema
refers_to name = schema (record blank { reference = some name }) no_properties no_element no_element

abbrev pub array_of : Schema → Schema
array_of s = schema (typed "array") no_properties (element s) no_element

abbrev pub map_of : Schema → Schema
map_of s = schema (typed "object") no_properties no_element (element s)

abbrev properties : List (String × Schema) → Properties
properties [] = no_properties
properties ((name, s) ∷ rest) = property name s (properties rest)

abbrev pub object_of : List (String × Schema) → List String → Schema
object_of fields required =
    schema (record (typed "object") { required = required }) (properties fields) no_element
      no_element

abbrev pub with_default : Default → Schema → Schema
with_default d (schema p fields items more) = schema (record p { default = d }) fields items more

abbrev pub with_extensions : GoMap Extension → Schema → Schema
with_extensions x (schema p fields items more) =
    schema (record p { extensions = x }) fields items more

-- `common.OpenAPIDefinition`
pub record Definition : Type 0 where
  pub schema : Schema
  pub dependencies : List ModelName

abbrev own_reference : Option ModelName → List ModelName
own_reference none = []
own_reference (some name) = name ∷ []

-- The names that a schema refers to.
unfoldable mutual
  pub references : Schema → List ModelName
  references (schema p fields items more) =
      own_reference p.reference
      ++ (property_references fields ++ (element_references items ++ element_references more))

  pub property_references : Properties → List ModelName
  property_references no_properties = []
  property_references (property _ s rest) = references s ++ property_references rest

  pub element_references : Element → List ModelName
  element_references no_element = []
  element_references (element s) = references s
