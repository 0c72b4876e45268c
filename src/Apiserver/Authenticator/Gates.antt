-- ===== src/Apiserver/Authenticator/Gates.antt =====
-- Who passes the authenticator and the authorizer of pkg/apiserver/apiserver.go, and with what.
use kcp_marketplace.Base.{
  ap, String, ◌≡◌, ◌⊎◌, inl, inr, refl, sym, ◌∙◌, true, false, not, ◌&&◌, ◌||◌, some, arith, List,
  [], ◌∷◌, ◌++◌, if◌then◌else◌, String-discrete, Bool-cases,
}
use kcp_marketplace.Errors.{ok}
use kcp_marketplace.Sar.{User}
use kcp_marketplace.Apiserver.Options.{Options}
use kcp_marketplace.Apiserver.Authorizer.{
  Decision, allow, no_opinion, Attributes, Authorizer, AuthorizerLibrary, all_authenticated,
  is_health_path, has_authenticated, new_authorizer, new_authorizer_allows,
}
use kcp_marketplace.Apiserver.Authenticator.{
  has_unauthenticated, anonymous_user, add_group, AuthenticatorLibrary, headers, authenticator,
  IsUnidentified, authenticator_cases,
}

has_authenticated-append :
    (gs : List String) → has_authenticated (gs ++ (all_authenticated ∷ [])) ≡ true
unfolding has_authenticated String-discrete
has_authenticated-append [] = refl
has_authenticated-append (g ∷ gs) = ground (arith, has_authenticated-append gs)

-- A user whom the group adder passes is authenticated, unless the headers said otherwise.
add_group-groups :
    (u : User)
    → has_authenticated (add_group u).groups
      ≡ (has_authenticated u.groups || not (has_unauthenticated u.groups))
unfolding add_group
add_group-groups u = ground (
  arith,
  Bool-cases (has_authenticated u.groups),
  Bool-cases (has_unauthenticated u.groups),
  has_authenticated-append u.groups,
)

anonymous_user_stays_out : has_authenticated anonymous_user.groups ≡ false
unfolding has_authenticated String-discrete
anonymous_user_stays_out = refl

-- What the authorizer says of a request whose headers give no user: a health path, and no
-- resource, is allowed.
abbrev pub decide_unidentified : Attributes → Decision
decide_unidentified attrs =
    if not attrs.is_resource_request && is_health_path attrs.path then allow else no_opinion

-- What it says of one whose headers give a user: all is allowed, but to a user whom the headers
-- put into the unauthenticated group and not into the authenticated one, who has the health paths.
abbrev pub decide_identified : User → Attributes → Decision
decide_identified u attrs =
    if (not attrs.is_resource_request && is_health_path attrs.path)
      || (has_authenticated u.groups || not (has_unauthenticated u.groups))
    then allow
    else no_opinion

-- A request whose headers give no user, because they are missing or refused, is allowed for a
-- health path and no resource only. One whose headers give a user is allowed everything, unless
-- they put that user into the unauthenticated group and not into the authenticated one, who is
-- allowed no more than the former; nothing is said of a user named as the anonymous one.
pub authenticator_gates :
    (lib : AuthenticatorLibrary) (authorizers : AuthorizerLibrary) (o : Options) (r : lib.Request)
    (v : User) (authz : Authorizer) (attrs : Attributes)
    → authenticator lib o r ≡ ok (some v)
    → attrs.user ≡ v
    → new_authorizer authorizers ≡ ok authz
    → ((u : User) × (headers lib o r ≡ ok (some u))
        × ((u.name ≡ anonymous_user.name) ⊎ (authz attrs ≡ decide_identified u attrs)))
      ⊎ (IsUnidentified lib o r × (authz attrs ≡ decide_unidentified attrs))
authenticator_gates lib authorizers o r v authz attrs got same made =
    let decides = new_authorizer_allows authorizers authz attrs made in
    elim (authenticator_cases lib o r) [
      | inl (u, known, inl anon) ↦ inl (u, known, inl anon)
      | inl (u, known, inr gives) ↦
          let is : add_group u ≡ v = cc in
          let inside = ap (λ w. has_authenticated w.groups) (same ∙ sym is) ∙ add_group-groups u in
          inl (
            u,
            known,
            inr (
                decides
                ∙ ap
                    (λ b.
                      if (not attrs.is_resource_request && is_health_path attrs.path) || b
                      then allow
                      else no_opinion)
                    inside),
          )
      | inr (unknown, gives) ↦
          let is : anonymous_user ≡ v = cc in
          let outside : has_authenticated attrs.user.groups ≡ false =
            ap (λ w. has_authenticated w.groups) (same ∙ sym is) ∙ anonymous_user_stays_out in
          inr (
            unknown,
            decides
                ∙ ground (
                  arith,
                  Bool-cases (not attrs.is_resource_request && is_health_path attrs.path),
                ),
          )
    ]
