-- ===== src/Sar.antt =====
-- pkg/sar/sar.go: SubjectAccessReviews of a user against a logical cluster, with a cache of the
-- decisions. Times are numbers of a unit that the clock and the TTL share.
pub mod Keys
pub mod Cache
pub mod Policy
pub mod Interleaving
use mathlib.Core.List.{foldl}
use kcp_marketplace.Base.{
  ℕ, ◌+◌, String, ◌<>◌, Bool, true, false, Option, none, some, List, [], ◌∷◌, is_after,
  if◌then◌else◌,
}
use kcp_marketplace.Base.GoMap.{GoMap, lookup, insert}
use kcp_marketplace.Errors.{Ctx, Error, review_failed, Result, ok, err}

-- `user.Info`
pub record User : Type 0 where
  pub name : String
  pub uid : String
  pub groups : List String
  pub extra : GoMap (List String)

pub record ResourceAttributes : Type 0 where
  pub verb : String
  pub group : String
  pub resource : String
  pub name : String

pub record NonResourceAttributes : Type 0 where
  pub verb : String
  pub path : String

-- `SubjectAccessReviewSpec`, with the fields that the package sets.
pub record Spec : Type 0 where
  pub resource_attributes : Option ResourceAttributes
  pub non_resource_attributes : Option NonResourceAttributes
  pub user : String
  pub groups : List String
  pub extra : GoMap (List String)
  pub uid : String

-- What is asked, before the user is filled in.
abbrev pub blank_spec : Spec
blank_spec = record {
  resource_attributes = none;
  non_resource_attributes = none;
  user = "";
  groups = [];
  extra = [];
  uid = "";
}

abbrev pub access_spec : Spec
access_spec = record blank_spec {
  non_resource_attributes = some (record { verb = "access"; path = "/" });
}

abbrev pub bind_spec : String → Spec
bind_spec name = record blank_spec {
  resource_attributes =
      some (record { verb = "bind"; group = "apis.kcp.io"; resource = "apiexports"; name = name });
}

-- The `range` over the user's extra fills a map, which is the same in any order.
unfoldable pub copy_extra : GoMap (List String) → GoMap (List String)
copy_extra = foldl (λ m (k, v). insert k v m) []

-- The first lines of `review`.
unfoldable pub with_user : User → Spec → Spec
with_user u spec = record spec {
  user = u.name;
  groups = u.groups;
  extra = elim u.extra [ [] ↦ spec.extra | e ∷ es ↦ copy_extra (e ∷ es) ];
  uid = u.uid;
}

pub record Entry : Type 0 where
  pub allowed : Bool
  pub expires : ℕ

-- The client and the mutex stand elsewhere: as an argument of `review`, and as the steps of
-- Sar.Interleaving.
pub record Checker : Type 0 where
  pub ttl : ℕ
  pub cache : GoMap Entry

unfoldable pub new : ℕ → Checker
new ttl = record { ttl = ttl; cache = [] }

-- `time.Now()` is the argument `now`.
unfoldable pub get : Checker → ℕ → String → Bool × Bool
get c now key = elim (lookup key c.cache) [
  | none ↦ (false, false)
  | some e ↦ if is_after now e.expires then (false, false) else (e.allowed, true)
]

unfoldable pub put : Checker → ℕ → String → Bool → Checker
put c now key allowed = record c {
  cache = insert key (record { allowed = allowed; expires = now + c.ttl }) c.cache;
}

-- `fmt.Sprintf("%x", sha256.Sum256(json.Marshal(spec)))`
pub record Digest : Type 0 where
  pub marshal : Spec → String
  pub sha256_hex : String → String

module _ (d : Digest) where
  abbrev pub digest_of : Spec → String
  digest_of spec = d.sha256_hex (d.marshal spec)

  unfoldable pub cache_key : String → Spec → String
  cache_key cluster spec = cluster <> "|" <> digest_of spec

  -- `client` answers at the time of the call. The clock is read in `get` and, later, in `put`.
  module _ (client : Ctx → String → Spec → Result Bool) where
    unfoldable pub review : Checker → ℕ × ℕ → Ctx → User → String → Spec → Result Bool × Checker
    review c (now, later) ctx u cluster asked =
        let spec = with_user u asked in
        let key = cache_key cluster spec in
        let (allowed, hit) = get c now key in
        if hit then (ok allowed, c) else elim (client ctx cluster spec) [
          | err e ↦ (err (review_failed cluster e), c)
          | ok answer ↦ (ok answer, put c later key answer)
        ]

    unfoldable pub can_access_workspace :
        Checker → ℕ × ℕ → Ctx → User → String → Result Bool × Checker
    can_access_workspace c times ctx u cluster = review c times ctx u cluster access_spec

    unfoldable pub can_bind_api_export :
        Checker → ℕ × ℕ → Ctx → User → String → String → Result Bool × Checker
    can_bind_api_export c times ctx u cluster name = review c times ctx u cluster (bind_spec name)
