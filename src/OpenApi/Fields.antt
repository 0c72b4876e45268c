-- ===== src/OpenApi/Fields.antt =====
-- How the fields of an object decide whether it is as a published schema says.
use kcp_marketplace.Base.{
  String, ◌≡◌, refl, inl, inr, sym, ◌∙◌, ap, true, false, ◌&&◌, arith, List, [], ◌∷◌, Bool-cases,
  String-discrete,
}
use kcp_marketplace.Api.Json.{
  Json, null, str, array, object, Fields, no_fields, field, optional, elements_of, optional_array,
}
use kcp_marketplace.OpenApi.{Schema, element}
use kcp_marketplace.OpenApi.Definitions.{get_open_api_definitions}
use kcp_marketplace.OpenApi.Validate.{
  field_of, items_of, required_of, is_of, has_all, resolve, conforms, elements_conform,
  fields_conform,
}

abbrev pub published : Schema → Schema
published = resolve get_open_api_definitions

-- A value, and the fields of an object, are as a published schema says.
pub record IsValid (j : Json) (s : Schema) : Type 0 where
  pub valid : conforms get_open_api_definitions j s ≡ true

pub record AreValid (fs : Fields) (s : Schema) : Type 0 where
  pub valid : fields_conform get_open_api_definitions fs s ≡ true

pub no_fields-AreValid : {s : Schema} → AreValid no_fields s
unfolding conforms
no_fields-AreValid = record { valid = refl }

pub object-IsValid :
    {fs : Fields} {s : Schema}
    → is_of "object" (published s) ≡ true
    → has_all (required_of (published s)) fs ≡ true
    → AreValid fs (published s)
    → IsValid (object fs) s
unfolding conforms
object-IsValid is_object complete inside = let all = inside.valid in record { valid = ground arith }

pub field-AreValid :
    {name : String} {j : Json} {rest : Fields} {s e : Schema}
    → field_of name s ≡ element e
    → IsValid j e
    → AreValid rest s
    → AreValid (field name j rest) s
unfolding conforms
field-AreValid declared inside others =
    let one = inside.valid in let all = others.valid in record { valid = ground arith }

pub optional-AreValid :
    (name value : String) {rest : Fields} {s e : Schema}
    → field_of name s ≡ element e
    → is_of "string" (published e) ≡ true
    → AreValid rest s
    → AreValid (optional name value rest) s
unfolding optional conforms
optional-AreValid name value declared is_text others = elim (String-discrete value "") [
  | yes empty ↦ let all = others.valid in record { valid = ground arith }
  | no full ↦ let all = others.valid in record { valid = ground arith }
]

pub elements_of-valid {ℓ} :
    {A : Type ℓ} (encode : A → Json) (xs : List A) (e : Schema)
    → ((x : A) → IsValid (encode x) e)
    → elements_conform get_open_api_definitions (elements_of encode xs) (element e) ≡ true
unfolding elements_of conforms
elements_of-valid encode [] e all = refl
elements_of-valid encode (x ∷ xs) e all =
    ground (arith, (all x).valid, elements_of-valid encode xs e all)

pub array-IsValid {ℓ} :
    {A : Type ℓ} (encode : A → Json) (xs : List A) {a e : Schema}
    → is_of "array" (published a) ≡ true
    → items_of (published a) ≡ element e
    → ((x : A) → IsValid (encode x) e)
    → IsValid (array (elements_of encode xs)) a
unfolding conforms
array-IsValid encode xs {a} {e} is_array holds all =
    let inside = elements_of-valid encode xs e all in record { valid = ground arith }

pub optional_array-AreValid {ℓ} :
    {A : Type ℓ} (name : String) (encode : A → Json) (xs : List A) {rest : Fields} {s a e : Schema}
    → field_of name s ≡ element a
    → is_of "array" (published a) ≡ true
    → items_of (published a) ≡ element e
    → ((x : A) → IsValid (encode x) e)
    → AreValid rest s
    → AreValid (optional_array name encode xs rest) s
unfolding optional_array
optional_array-AreValid name encode [] declared is_array holds all others = others
optional_array-AreValid name encode (x ∷ xs) declared is_array holds all others =
    field-AreValid declared (array-IsValid encode (x ∷ xs) is_array holds all) others

pub conforms_published :
    (j : Json) (s t : Schema)
    → published s ≡ published t
    → conforms get_open_api_definitions j s ≡ conforms get_open_api_definitions j t
unfolding conforms
conforms_published null s t same = refl
conforms_published (str _) s t same = ap (is_of "string") same
conforms_published (array xs) s t same =
    ap (λ r. is_of "array" r && elements_conform get_open_api_definitions xs (items_of r)) same
conforms_published (object fs) s t same =
    ap
      (λ r.
        is_of "object" r
        && (has_all (required_of r) fs && fields_conform get_open_api_definitions fs r))
      same

-- A default beside a reference says nothing of a value that is there.
pub same_reference :
    {j : Json} {s t : Schema} → published s ≡ published t → IsValid j s → IsValid j t
same_reference {j} {s} {t} same h = record { valid = sym (conforms_published j s t same) ∙ h.valid }

-- A field, or one of the rest, is refused.
pub record AreRefused (fs : Fields) (s : Schema) : Type 0 where
  pub refused : fields_conform get_open_api_definitions fs s ≡ false

pub null-AreRefused :
    (name : String) {rest : Fields} {s e : Schema}
    → field_of name s ≡ element e
    → AreRefused (field name null rest) s
unfolding conforms
null-AreRefused name declared = record { refused = ground arith }

pub field-AreRefused :
    (name : String) (j : Json) {rest : Fields} {s : Schema}
    → AreRefused rest s
    → AreRefused (field name j rest) s
unfolding conforms
field-AreRefused name j {rest} {s} later =
    let bad = later.refused in
    elim (Bool-cases (fields_conform get_open_api_definitions (field name j rest) s)) [
      | inl holds ↦ absurd (ground arith)
      | inr fails ↦ record { refused = fails }
    ]

pub optional-AreRefused :
    (name value : String) {rest : Fields} {s : Schema}
    → AreRefused rest s
    → AreRefused (optional name value rest) s
unfolding optional
optional-AreRefused name value later = elim (String-discrete value "") [
  | yes empty ↦ let bad = later.refused in record { refused = ground arith }
  | no full ↦
      let bad = (field-AreRefused name (str value) later).refused in
      record { refused = ground arith }
]

pub object_refused :
    (fs : Fields) (s : Schema)
    → AreRefused fs (published s)
    → conforms get_open_api_definitions (object fs) s ≡ false
unfolding conforms
object_refused fs s inside =
    let bad = inside.refused in
    elim (Bool-cases (conforms get_open_api_definitions (object fs) s)) [
      | inl holds ↦ absurd (ground arith)
      | inr fails ↦ fails
    ]
