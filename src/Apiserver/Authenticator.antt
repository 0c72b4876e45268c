-- ===== src/Apiserver/Authenticator.antt =====
-- `authenticator` of pkg/apiserver/apiserver.go: the front-proxy's headers, or the anonymous user.
pub mod Gates
use kcp_marketplace.Base.{
  Bool, ap, String, ◌≡◌, ◌≢◌, ◌⊎◌, inl, inr, refl, sym, ◌∙◌, true, false, not, ◌&&◌, ◌||◌, Option,
  none, some, arith, List, [], ◌∷◌, ◌++◌, ◌==◌, if◌then◌else◌, String-discrete, Bool-cases,
  Option-cases,
}
use kcp_marketplace.Errors.{Error, Result, ok, err, Result-cases}
use kcp_marketplace.Sar.{User}
use kcp_marketplace.Apiserver.Options.{Options}
use kcp_marketplace.Apiserver.Authorizer.{
  Decision, allow, no_opinion, Attributes, Authorizer, AuthorizerLibrary, all_authenticated,
  is_health_path, has_authenticated, new_authorizer, new_authorizer_allows,
}

abbrev pub anonymous_user : User
anonymous_user = record {
  name = "system:anonymous";
  uid = "";
  groups = "system:unauthenticated" ∷ [];
  extra = [];
}

unfoldable pub has_unauthenticated : List String → Bool
has_unauthenticated [] = false
has_unauthenticated (g ∷ gs) =
    let rest = has_unauthenticated gs in if g == "system:unauthenticated" then true else rest

-- What `AuthenticateRequest` of the group adder documents of a user that the inner authenticator
-- found: the group is added to a user that is in neither of the two groups.
unfoldable pub add_group : User → User
add_group u =
    if has_authenticated u.groups || has_unauthenticated u.groups
    then u
    else record u { groups = u.groups ++ (all_authenticated ∷ []) }

-- The authenticators of k8s.io/apiserver, with what the server relies on. A request that carries no
-- identity is `none`. The verification of the client certificate is part of `request_header`,
-- whose lists are the allowed names and the headers of the name, UID, groups and extra. Of a user
-- named as the anonymous one, the group adder is only known to let some user through.
pub record AuthenticatorLibrary : Type 1 where
  pub Request : Type 0
  pub request_header :
      List String
      → List String
      → List String
      → List String
      → List String
      → Request
      → Result (Option User)
  pub group_adder : (Request → Result (Option User)) → Request → Result (Option User)
  pub anonymous : Request → Result (Option User)
  pub union : List (Request → Result (Option User)) → Request → Result (Option User)
  pub adder-some :
      (a : Request → Result (Option User)) (r : Request) (u : User)
      → a r ≡ ok (some u)
      → u.name ≢ anonymous_user.name
      → group_adder a r ≡ ok (some (add_group u))
  pub adder-anonymous :
      (a : Request → Result (Option User)) (r : Request) (u : User)
      → a r ≡ ok (some u)
      → u.name ≡ anonymous_user.name
      → (w : User) × (group_adder a r ≡ ok (some w))
  pub adder-none :
      (a : Request → Result (Option User)) (r : Request) → a r ≡ ok none → group_adder a r ≡ ok none
  pub adder-err :
      (a : Request → Result (Option User)) (r : Request) (e : Error)
      → a r ≡ err e
      → group_adder a r ≡ err e
  pub anonymous-always : (r : Request) → anonymous r ≡ ok (some anonymous_user)
  pub union-some :
      (a : Request → Result (Option User)) (rest : List (Request → Result (Option User)))
      (r : Request) (u : User)
      → a r ≡ ok (some u)
      → union (a ∷ rest) r ≡ ok (some u)
  pub union-none :
      (a : Request → Result (Option User)) (rest : List (Request → Result (Option User)))
      (r : Request)
      → a r ≡ ok none
      → union (a ∷ rest) r ≡ union rest r
  pub union-err :
      (a : Request → Result (Option User)) (rest : List (Request → Result (Option User)))
      (r : Request) (e : Error) (u : User)
      → a r ≡ err e
      → union rest r ≡ ok (some u)
      → union (a ∷ rest) r ≡ ok (some u)

module _ (lib : AuthenticatorLibrary) (o : Options) where
  unfoldable pub headers : lib.Request → Result (Option User)
  headers =
      lib.request_header o.allowed_names o.username_headers [] o.group_headers
        o.extra_header_prefixes

  unfoldable pub authenticator : lib.Request → Result (Option User)
  authenticator = lib.union (lib.group_adder headers ∷ lib.anonymous ∷ [])

  -- The headers gave no user.
  abbrev pub IsUnidentified : lib.Request → Type 0
  IsUnidentified r = (headers r ≡ ok none) ⊎ ((e : Error) × (headers r ≡ err e))

  -- Every request gets a user: the one of the headers, with the group, or the anonymous one.
  pub authenticator_cases :
      (r : lib.Request)
      → ((u : User) × (headers r ≡ ok (some u))
          × ((u.name ≡ anonymous_user.name) ⊎ (authenticator r ≡ ok (some (add_group u)))))
        ⊎ (IsUnidentified r × (authenticator r ≡ ok (some anonymous_user)))
  unfolding authenticator
  authenticator_cases r = elim (Result-cases (headers r)) [
    | inr (e, bad) ↦ inr (
      inr (e, bad),
      lib.union-err (lib.group_adder headers) (lib.anonymous ∷ []) r e anonymous_user
          (lib.adder-err headers r e bad) fallback,
    )
    | inl (found, done) ↦ elim (Option-cases found) [
      | inl nobody ↦
          let blank = done ∙ ap ok nobody in
          inr (
            inl blank,
            lib.union-none (lib.group_adder headers) (lib.anonymous ∷ []) r
                  (lib.adder-none headers r blank)
                ∙ fallback,
          )
      | inr (u, somebody) ↦
          let known = done ∙ ap ok somebody in
          inl (
            u,
            known,
            elim (String-discrete u.name anonymous_user.name) [
              | yes anon ↦ inl anon
              | no named ↦ inr (
                  lib.union-some (lib.group_adder headers) (lib.anonymous ∷ []) r (add_group u)
                    (lib.adder-some headers r u known named))
            ],
          )
    ]
  ]
    where
      fallback : lib.union (lib.anonymous ∷ []) r ≡ ok (some anonymous_user)
      fallback = lib.union-some lib.anonymous [] r anonymous_user (lib.anonymous-always r)
