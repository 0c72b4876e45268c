-- ===== src/Tests/Door.antt =====
-- The authenticator and the authorizer of pkg/apiserver/apiserver.go on an anonymous probe.
use kcp_marketplace.Base.{
  String, true, ◌==◌, String-discrete, ◌≡◌, ◌⊎◌, refl, false, not, ◌&&◌, ◌||◌, Option, none, some,
  arith, List, [], ◌∷◌, if◌then◌else◌,
}
use kcp_marketplace.Errors.{Result, ok, err}
use kcp_marketplace.Sar.{User}
use kcp_marketplace.Apiserver.Options.{new_options}
use kcp_marketplace.Apiserver.Authorizer.{
  health_paths, allows_path, matches, prefix_of, bare, allow, deny, no_opinion, Attributes,
  Authorizer, AuthorizerLibrary, is_health_path, authenticated_only, new_authorizer,
  has_authenticated, new_authorizer_allows,
}
use kcp_marketplace.Apiserver.Authenticator.{
  has_unauthenticated, AuthenticatorLibrary, anonymous_user, add_group, headers, authenticator,
  IsUnidentified,
}
use kcp_marketplace.Apiserver.Authenticator.Gates.{
  decide_unidentified, decide_identified, authenticator_gates,
}

-- A request is what its headers say.
abbrev union_of : List (Option User → Result (Option User)) → Option User → Result (Option User)
union_of [] r = ok none
union_of (a ∷ rest) r =
    let later = union_of rest r in
    elim (a r) [
      | ok (some u) ↦ ok (some u)
      | ok none ↦ later
      | err e ↦ elim later [ ok (some u) ↦ ok (some u) | _ ↦ err e ]
    ]

-- The anonymous user gets no group.
abbrev with_group : (Option User → Result (Option User)) → Option User → Result (Option User)
with_group a r = elim (a r) [
  | ok (some u) ↦ ok (some (if u.name == anonymous_user.name then u else add_group u))
  | ok none ↦ ok none
  | err e ↦ err e
]

abbrev pub requests : AuthenticatorLibrary
requests = record {
  Request = Option User;
  request_header = λ _ _ _ _ _ r. ok r;
  group_adder = with_group;
  anonymous = λ _. ok (some anonymous_user);
  union = union_of;
  adder-some = λ a r u h differ. ground arith;
  adder-anonymous = λ a r u h same. (u, ground arith);
  adder-none = λ a r h. ground arith;
  adder-err = λ a r e h. ground arith;
  anonymous-always = λ r. refl;
  union-some = λ a rest r u h. ground arith;
  union-none = λ a rest r h. ground arith;
  union-err = λ a rest r e u h k. ground arith;
}

abbrev first_of : List Authorizer → Authorizer
first_of [] attrs = no_opinion
first_of (a ∷ rest) attrs =
    let later = first_of rest attrs in
    elim (a attrs) [ no_opinion ↦ later | allow ↦ allow | deny ↦ deny ]

abbrev open_paths : List String → Authorizer
open_paths paths attrs =
    if not attrs.is_resource_request && allows_path paths attrs.path then allow else no_opinion

abbrev pub authorizers : AuthorizerLibrary
authorizers = record {
  path_authorizer = λ paths. ok (open_paths paths);
  union = first_of;
  path-allows = λ paths a attrs made. ground arith;
  union-nil = λ attrs. refl;
  union-cons = λ a rest attrs. refl;
}

abbrev probe : Attributes
probe = record { user = anonymous_user; path = "/readyz"; is_resource_request = false }

abbrev pub door : Authorizer
door = first_of (open_paths health_paths ∷ authenticated_only ∷ [])

pub door_made : new_authorizer authorizers ≡ ok door
unfolding new_authorizer
door_made = refl

-- Without headers, and with those of a user.
test_let_in : authenticator requests new_options none ≡ ok (some anonymous_user)
unfolding authenticator headers
test_let_in = refl

abbrev pub ann : User
ann = record { name = "ann"; uid = "1"; groups = []; extra = [] }

abbrev pub lists : Attributes
lists = record { user = add_group ann; path = "/apis"; is_resource_request = true }

pub ann_let_in : authenticator requests new_options (some ann) ≡ ok (some (add_group ann))
unfolding authenticator headers String-discrete
ann_let_in = refl

test_authenticator_gates :
    ((u : User) × (headers requests new_options (some ann) ≡ ok (some u))
      × ((u.name ≡ anonymous_user.name) ⊎ (door lists ≡ decide_identified u lists)))
    ⊎ (IsUnidentified requests new_options (some ann) × (door lists ≡ decide_unidentified lists))
test_authenticator_gates =
    authenticator_gates requests authorizers new_options (some ann) (add_group ann) door lists
      ann_let_in refl door_made

-- The outcomes at concrete requests: a probe, a user, and one whom the headers say to be
-- unauthenticated.
test_decide_unidentified :
    (decide_unidentified probe ≡ allow)
    × (decide_unidentified (record probe { path = "/apis" }) ≡ no_opinion)
unfolding is_health_path bare String-discrete
test_decide_unidentified = (refl, refl)

test_decide_identified :
    (decide_identified ann lists ≡ allow)
    × (decide_identified (record ann { groups = "system:unauthenticated" ∷ [] }) lists ≡ no_opinion)
unfolding has_authenticated has_unauthenticated is_health_path bare String-discrete
test_decide_identified = (refl, refl)

test_allows_path :
    (allows_path health_paths "/apis" ≡ false)
    × (allows_path ("/apis/*" ∷ []) "/apis/v1" ≡ true)
    × (allows_path ("*" ∷ []) "" ≡ true)
unfolding allows_path matches prefix_of bare String-discrete
test_allows_path = (refl, refl, refl)

new_authorizer_allows_example : door probe ≡ (
    if (not probe.is_resource_request && is_health_path probe.path)
      || has_authenticated probe.user.groups
    then allow
    else no_opinion)
new_authorizer_allows_example = new_authorizer_allows authorizers door probe door_made
