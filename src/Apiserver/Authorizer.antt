-- ===== src/Apiserver/Authorizer.antt =====
-- The authorizer of pkg/apiserver/apiserver.go: health paths for all, the rest for the
-- authenticated. Reasons are left out, and errors, which none of the two parts returns.
use Prim.Native.String as S
use Prim.Native.String.append
use text.Mathlib.Text.{starts_with}
use mathlib.Core.Bool.{true≢false}
use kcp_marketplace.Base.{
  ◌<>◌, ◌≢◌, ◌⊎◌, refl, sym, Option, none, some, String-discrete, ap, String, ◌≡◌, inl, inr, ◌∙◌,
  Bool, true, false, not, ◌&&◌, ◌||◌, arith, List, [], ◌∷◌, ◌==◌, if◌then◌else◌, Bool-cases,
}
use kcp_marketplace.Errors.{Result, ok, ◌>>=◌, Result-cases}
use kcp_marketplace.Sar.{User}

pub data Decision : Type 0 where
  allow deny no_opinion : Decision

-- `authorizer.Attributes`, as far as the two parts read it.
pub record Attributes : Type 0 where
  pub user : User
  pub path : String
  pub is_resource_request : Bool

abbrev pub Authorizer : Type 0
Authorizer = Attributes → Decision

abbrev pub health_paths : List String
health_paths = "/healthz" ∷ "/livez" ∷ "/readyz" ∷ []

-- `strings.TrimPrefix(path, "/")`
unfoldable pub bare : String → String
bare S.[] = ""
bare (S.◌∷◌ c s) = if S.◌∷◌ c "" == "/" then s else S.◌∷◌ c s

-- The text before a `*` at the end; none if there is no such `*`.
unfoldable pub prefix_of : String → Option String
prefix_of S.[] = none
prefix_of (S.◌∷◌ c s) =
    let rest = prefix_of s in
    if S.◌∷◌ c s == "*" then some "" else elim rest [ none ↦ none | some t ↦ some (S.◌∷◌ c t) ]

-- What `path.NewAuthorizer` documents of a path of its list: a slash at the start is optional, and
-- a `*` at the end matches any text.
unfoldable pub matches : String → String → Bool
matches pattern path = elim (prefix_of (bare pattern)) [
  | none ↦ bare path == bare pattern
  | some prefix ↦ starts_with (bare path) prefix
]

unfoldable pub allows_path : List String → String → Bool
allows_path [] path = false
allows_path (p ∷ ps) path = matches p path || allows_path ps path

-- The paths of the probes, with a slash at the start or without.
unfoldable pub is_health_path : String → Bool
is_health_path path =
    path == "/healthz"
    || path == "healthz"
    || path == "/livez"
    || path == "livez"
    || path == "/readyz"
    || path == "readyz"

-- The packages `path` and `union` of k8s.io/apiserver, with what the authorizer relies on.
pub record AuthorizerLibrary : Type 0 where
  pub path_authorizer : List String → Result Authorizer
  pub union : List Authorizer → Authorizer
  pub path-allows :
      (paths : List String) (a : Authorizer) (attrs : Attributes)
      → path_authorizer paths ≡ ok a
      → a attrs ≡ (
          if not attrs.is_resource_request && allows_path paths attrs.path
          then allow
          else no_opinion)
  pub union-nil : (attrs : Attributes) → union [] attrs ≡ no_opinion
  pub union-cons :
      (a : Authorizer) (rest : List Authorizer) (attrs : Attributes)
      → union (a ∷ rest) attrs
        ≡ elim (a attrs) [ no_opinion ↦ union rest attrs | allow ↦ allow | deny ↦ deny ]

abbrev pub all_authenticated : String
all_authenticated = "system:authenticated"

-- The loop of `Authorize`.
unfoldable pub has_authenticated : List String → Bool
has_authenticated [] = false
has_authenticated (g ∷ gs) =
    let rest = has_authenticated gs in if g == all_authenticated then true else rest

unfoldable pub authenticated_only : Authorizer
authenticated_only attrs = if has_authenticated attrs.user.groups then allow else no_opinion

unfoldable pub new_authorizer : AuthorizerLibrary → Result Authorizer
new_authorizer lib =
    lib.path_authorizer health_paths >>= λ health. ok (lib.union (health ∷ authenticated_only ∷ []))

abbrev first_of : String → String
first_of S.[] = ""
first_of (S.◌∷◌ c _) = S.◌∷◌ c ""

abbrev rest_of : String → String
rest_of S.[] = ""
rest_of (S.◌∷◌ _ s) = s

first_of-slash : (t : String) → first_of ("/" <> t) ≡ "/"
first_of-slash t = ap first_of (append.cons "/" "" t)

rest_of-slash : (t : String) → rest_of ("/" <> t) ≡ t
rest_of-slash t = ap rest_of (append.cons "/" "" t) ∙ append.nil t

empty-slash : (t : String) → "" ≢ "/" <> t
unfolding String-discrete
empty-slash t e = true≢false (ap (λ s. s == "") (ap first_of e ∙ first_of-slash t))

bare_cases :
    (path : String)
    → (path ≡ "/" <> bare path) ⊎ ((bare path ≡ path) × ((t : String) → path ≢ "/" <> t))
unfolding bare
bare_cases S.[] = inr (refl, empty-slash)
bare_cases (S.◌∷◌ c s) = elim (String-discrete (S.◌∷◌ c "") "/") [
  | yes slash ↦
      let stripped : bare (S.◌∷◌ c s) ≡ s = ground arith in
      let joined : S.◌∷◌ c "" <> s ≡ S.◌∷◌ c s = append.cons c "" s ∙ ap (S.◌∷◌ c) (append.nil s) in
      inl (sym joined ∙ ap (λ t. t <> s) slash ∙ ap (λ t. "/" <> t) (sym stripped))
  | no other ↦ inr (ground arith, λ t e. other (ap first_of e ∙ first_of-slash t))
]

-- A word that does not begin with a slash is the path without its slash, or the whole path.
bare-is :
    (word path : String)
    → first_of word ≢ "/"
    → (bare path == word) ≡ (path == "/" <> word || path == word)
bare-is word path plain = elim (bare_cases path) [
  | inl whole ↦
      let not_word : path ≢ word =
        λ e. plain (ap first_of (sym e ∙ whole) ∙ first_of-slash (bare path)) in
      elim (String-discrete (bare path) word) [
        | yes same ↦
            let slashed : path ≡ "/" <> word = whole ∙ ap (λ t. "/" <> t) same in ground arith
        | no differ ↦
            let not_slashed : path ≢ "/" <> word = λ e.
              differ (
                sym (rest_of-slash (bare path))
                ∙ ap rest_of (sym whole ∙ e)
                ∙ rest_of-slash word) in
            ground arith
      ]
  | inr (same, never) ↦
      let not_slashed = never word in
      elim (String-discrete path word) [ yes e ↦ ground arith | no differ ↦ ground arith ]
]

regroup :
    (a b c d e f x y z : Bool)
    → x ≡ (a || b)
    → y ≡ (c || d)
    → z ≡ (e || f)
    → (x || (y || (z || false))) ≡ (a || b || c || d || e || f)
regroup a b c d e f x y z p q r =
    ground
      (arith, Bool-cases a, Bool-cases b, Bool-cases c, Bool-cases d, Bool-cases e, Bool-cases f)

health_paths-allowed : (path : String) → allows_path health_paths path ≡ is_health_path path
unfolding allows_path matches prefix_of bare is_health_path String-discrete
health_paths-allowed path =
    let computed : allows_path health_paths path
        ≡ (bare path == "healthz" || (bare path == "livez" || (bare path == "readyz" || false))) =
      refl in
    computed
    ∙ regroup (path == "/healthz") (path == "healthz") (path == "/livez") (path == "livez")
        (path == "/readyz") (path == "readyz") (bare path == "healthz") (bare path == "livez")
        (bare path == "readyz") (bare-is "healthz" path (λ e. true≢false (ap (λ s. s == "h") e)))
        (bare-is "livez" path (λ e. true≢false (ap (λ s. s == "l") e)))
        (bare-is "readyz" path (λ e. true≢false (ap (λ s. s == "r") e)))

-- The authorizer never denies. It allows a request for a health path, other than a resource
-- request, to anyone, and all else to the members of the authenticated group only.
pub new_authorizer_allows :
    (lib : AuthorizerLibrary) (authz : Authorizer) (attrs : Attributes)
    → new_authorizer lib ≡ ok authz
    → authz attrs ≡ (
        if (not attrs.is_resource_request && is_health_path attrs.path)
          || has_authenticated attrs.user.groups
        then allow
        else no_opinion)
unfolding new_authorizer authenticated_only
new_authorizer_allows lib authz attrs made =
    elim (Result-cases (lib.path_authorizer health_paths)) [
      | inr (e, bad) ↦ absurd (ground arith)
      | inl (health, built) ↦
          let whole : authz ≡ lib.union (health ∷ authenticated_only ∷ []) = ground arith in
          ap (λ a. a attrs) whole
          ∙ ground (
            arith,
            lib.path-allows health_paths health attrs built,
            health_paths-allowed attrs.path,
            lib.union-cons health (authenticated_only ∷ []) attrs,
            lib.union-cons authenticated_only [] attrs,
            lib.union-nil attrs,
            Bool-cases (not attrs.is_resource_request && is_health_path attrs.path),
            Bool-cases (has_authenticated attrs.user.groups),
          )
    ]
