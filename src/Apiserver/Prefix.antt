-- ===== src/Apiserver/Prefix.antt =====
-- The handler of `New` in pkg/apiserver/apiserver.go that strips the front-proxy's path prefix.
use Prim.Native.String as S
use Prim.Native.String.append
use text.Mathlib.Text.{starts_with}
use text.Mathlib.TextBridge.{IsPrefix}
use text.Mathlib.TextEquality.{starts_with_iff}
use text.Mathlib.TextPositions.{slice-append_right, len-append}
use text.Mathlib.TextLemmas.{append_assoc, append-nil}
use mathlib.Core.Bool.{true≢false}
use kcp_marketplace.Base.{
  Bool, false, ◌&&◌, subst, String, ◌<>◌, ◌≡◌, ◌≢◌, ◌⊎◌, inl, inr, refl, sym, ◌∙◌, ap, true, ◌||◌,
  Option, none, some, arith, ◌==◌, if◌then◌else◌, String-discrete, Bool-cases,
}

-- `strings.TrimRight(s, "/")`
unfoldable pub trim_right_slashes : String → String
trim_right_slashes S.[] = ""
trim_right_slashes (S.◌∷◌ c s) =
    let rest = trim_right_slashes s in if S.◌∷◌ c rest == "/" then "" else S.◌∷◌ c rest

-- `url.URL`, as far as `http.StripPrefix` reads it: the decoded path, and the path as the request
-- wrote it, which is empty if that is the usual way to write the decoded one.
pub record Url : Type 0 where
  pub path : String
  pub raw_path : String

-- `strings.TrimPrefix(s, prefix)`
unfoldable pub trim_prefix : String → String → String
trim_prefix prefix s = if starts_with s prefix then S.slice s (S.len prefix) (S.len s) else s

-- `http.StripPrefix` for a prefix that is not empty: the URL that the inner handler sees; none, and
-- the response is 404.
unfoldable pub strip_prefix : String → Url → Option Url
strip_prefix prefix url =
    if starts_with url.path prefix && (url.raw_path == "" || starts_with url.raw_path prefix)
    then some
        (record { path = trim_prefix prefix url.path; raw_path = trim_prefix prefix url.raw_path })
    else none

-- The `http.HandlerFunc`, which looks at the decoded path only.
unfoldable pub handle : String → Url → Option Url
handle prefix url =
    if starts_with url.path (prefix <> "/") || url.path == prefix
    then strip_prefix prefix url
    else some url

-- The URL under which the handler chain serves a request, for the option `--path-prefix`.
unfoldable pub served_url : String → Url → Option Url
served_url path_prefix url =
    let prefix = trim_right_slashes path_prefix in
    if prefix == "" then some url else handle prefix url

trim_prefix-append : (p t : String) → trim_prefix p (p <> t) ≡ t
unfolding trim_prefix
trim_prefix-append p t =
    let found : starts_with (p <> t) p ≡ true = (starts_with_iff (p <> t) p).1 (t, refl) in
    ground (arith, len-append p t, slice-append_right p t)

abbrev is_blank : String → Bool
is_blank S.[] = true
is_blank (S.◌∷◌ _ _) = false

append-empty : (p t : String) → p <> t ≡ "" → p ≡ ""
append-empty S.[] t e = refl
append-empty (S.◌∷◌ c s) t e =
    let joined : S.◌∷◌ c (s <> t) ≡ "" = sym (append.cons c s t) ∙ e in
    absurd (true≢false (sym (ap is_blank joined)))

trim_prefix-empty : (p : String) → p ≢ "" → trim_prefix p "" ≡ ""
unfolding trim_prefix
trim_prefix-empty S.[] full = absurd (full refl)
trim_prefix-empty (S.◌∷◌ c s) full = elim (Bool-cases (starts_with "" (S.◌∷◌ c s))) [
  | inl begins ↦
      let (t, e) = (starts_with_iff "" (S.◌∷◌ c s)).0 begins in
      absurd (full (append-empty (S.◌∷◌ c s) t e))
  | inr apart ↦ ground arith
]

-- What `http.StripPrefix` does of a URL whose decoded path is the prefix and `rest`.
pub data Stripped (prefix rest raw : String) : Option Url → Type 0 where
  plain : raw ≡ "" → Stripped prefix rest raw (some (record { path = rest; raw_path = "" }))
  written :
      (raw_rest : String)
      → raw ≢ ""
      → raw ≡ prefix <> raw_rest
      → Stripped prefix rest raw (some (record { path = rest; raw_path = raw_rest }))
  refused : raw ≢ "" → ¬ IsPrefix prefix raw → Stripped prefix rest raw none

strip_prefix-Stripped :
    (p rest : String) (url : Url)
    → p ≢ ""
    → url.path ≡ p <> rest
    → Stripped p rest url.raw_path (strip_prefix p url)
unfolding strip_prefix
strip_prefix-Stripped p rest url full whole =
    let found : starts_with url.path p ≡ true = (starts_with_iff url.path p).1 (rest, sym whole) in
    let cut : trim_prefix p url.path ≡ rest =
      ap (trim_prefix p) whole ∙ trim_prefix-append p rest in
    elim (String-discrete url.raw_path "") [
      | yes blank ↦
          let raw : trim_prefix p url.raw_path ≡ "" =
            ap (trim_prefix p) blank ∙ trim_prefix-empty p full in
          subst (Stripped p rest url.raw_path) (ground arith) (plain blank)
      | no set ↦ elim (Bool-cases (starts_with url.raw_path p)) [
        | inl begins ↦
            let (t, e) = (starts_with_iff url.raw_path p).0 begins in
            let raw : trim_prefix p url.raw_path ≡ t =
              ap (trim_prefix p) (sym e) ∙ trim_prefix-append p t in
            subst (Stripped p rest url.raw_path) (ground arith) (written t set (sym e))
        | inr differs ↦
            subst (Stripped p rest url.raw_path) (ground arith)
              (refused set (λ h. true≢false (sym ((starts_with_iff url.raw_path p).1 h) ∙ differs)))
      ]
    ]

-- With a prefix, a path that is the prefix or below it is served without it. If the request
-- wrote that path in a way of its own, this writing loses the prefix too, or, where it does not
-- begin with the prefix as it stands, the response is a 404. Every other path, or any if the
-- prefix is empty, is served unchanged.
pub served_url_cases :
    (path_prefix : String) (url : Url)
    → let prefix = trim_right_slashes path_prefix in
      ((rest : String) × (prefix ≢ "")
        × (url.path ≡ prefix <> rest)
        × ((rest ≡ "") ⊎ ((below : String) × (rest ≡ "/" <> below)))
        × Stripped prefix rest url.raw_path (served_url path_prefix url))
      ⊎ (((prefix ≡ "") ⊎ ((url.path ≢ prefix) × ¬ IsPrefix (prefix <> "/") url.path))
          × (served_url path_prefix url ≡ some url))
unfolding served_url handle
served_url_cases path_prefix url =
    let prefix = trim_right_slashes path_prefix in
    elim (String-discrete prefix "") [
      | yes off ↦ inr (inl off, ground arith)
      | no on ↦ elim (Bool-cases (starts_with url.path (prefix <> "/"))) [
        | inl under ↦
            let (below, e) = (starts_with_iff url.path (prefix <> "/")).0 under in
            let whole = sym e ∙ append_assoc prefix "/" below in
            let serves : strip_prefix prefix url ≡ served_url path_prefix url = ground arith in
            inl (
              "/" <> below,
              on,
              whole,
              inr (below, refl),
              subst (Stripped prefix ("/" <> below) url.raw_path) serves
                  (strip_prefix-Stripped prefix ("/" <> below) url on whole),
            )
        | inr not_under ↦ elim (String-discrete url.path prefix) [
          | yes same ↦
              let serves : strip_prefix prefix url ≡ served_url path_prefix url = ground arith in
              let whole = same ∙ sym (append-nil prefix) in
              inl (
                "",
                on,
                whole,
                inl refl,
                subst (Stripped prefix "" url.raw_path) serves
                    (strip_prefix-Stripped prefix "" url on whole),
              )
          | no differ ↦
              let apart : ¬ IsPrefix (prefix <> "/") url.path = λ h.
                true≢false (sym ((starts_with_iff url.path (prefix <> "/")).1 h) ∙ not_under) in
              inr (inr (differ, apart), ground arith)
        ]
      ]
    ]
