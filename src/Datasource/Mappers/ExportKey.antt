-- ===== src/Datasource/Mappers/ExportKey.antt =====
-- The keys of the map in `mapAPIExports` of pkg/datasource/mappers.go: a path, a slash and a name.
use Prim.Native.Char.{Char}
use Prim.Native.String as S
use Prim.Native.String.append
use mathlib.Core.Path.{ap₂}
use text.Mathlib.TextLemmas.{cons-eq-cons}
use kcp_marketplace.Base.{String, ◌<>◌, ◌≡◌, refl, sym, ◌∙◌, ap, subst, ◌≢◌}
use kcp_marketplace.Datasource.Mappers.{export_key}

abbrev slash : Char
slash = "/"

-- Kubernetes allows no slash in the name of an object.
abbrev pub HasNoSlash : String → Type 0
HasNoSlash S.[] = Unit
HasNoSlash (S.◌∷◌ c s) = (c ≢ slash) × HasNoSlash s

export_key-nil : (n : String) → export_key S.[] n ≡ S.◌∷◌ slash n
export_key-nil n =
    append.nil ("/" <> n) ∙ append.cons slash S.[] n ∙ ap (S.◌∷◌ slash) (append.nil n)

export_key-cons : (c : Char) (p n : String) → export_key (S.◌∷◌ c p) n ≡ S.◌∷◌ c (export_key p n)
export_key-cons c p n = append.cons c p ("/" <> n)

export_key_has_slash : (p n : String) → HasNoSlash (export_key p n) → ⊥
export_key_has_slash S.[] n h = (subst HasNoSlash (export_key-nil n) h).0 refl
export_key_has_slash (S.◌∷◌ c p) n h =
    export_key_has_slash p n (subst HasNoSlash (export_key-cons c p n) h).1

-- A name with no slash is not what a longer path leaves of a key.
not-export_key-cons :
    (d : Char) (q m n : String) → HasNoSlash m → export_key S.[] m ≢ export_key (S.◌∷◌ d q) n
not-export_key-cons d q m n h e =
    export_key_has_slash q n
      (subst HasNoSlash (cons-eq-cons.0 (sym (export_key-nil m) ∙ e ∙ export_key-cons d q n)).1 h)

-- With no slash in the names, the key determines the path and the name.
pub export_key_inj :
    (p q m n : String)
    → HasNoSlash m
    → HasNoSlash n
    → export_key p m ≡ export_key q n
    → (p ≡ q) × (m ≡ n)
export_key_inj S.[] S.[] m n hm hn e =
    (refl, (cons-eq-cons.0 (sym (export_key-nil m) ∙ e ∙ export_key-nil n)).1)
export_key_inj S.[] (S.◌∷◌ d q) m n hm hn e = absurd (not-export_key-cons d q m n hm e)
export_key_inj (S.◌∷◌ c p) S.[] m n hm hn e = absurd (not-export_key-cons c p n m hn (sym e))
export_key_inj (S.◌∷◌ c p) (S.◌∷◌ d q) m n hm hn e =
    let parts = cons-eq-cons.0 (sym (export_key-cons c p m) ∙ e ∙ export_key-cons d q n) in
    let (paths, names) = export_key_inj p q m n hm hn parts.1 in (ap₂ S.◌∷◌ parts.0 paths, names)
