-- ===== src/Sar/Keys.antt =====
-- `cacheKey` of pkg/sar/sar.go keeps clusters and users apart.
use Prim.Native.String.{count}
use text.Mathlib.TextLemmas.{append_inj, length-append, append_cancel_left}
use kcp_marketplace.Base.{String, ◌<>◌, ◌≡◌, ap, arith}
use kcp_marketplace.Sar.{Digest, User, Spec, digest_of, cache_key, with_user}

-- SHA-256 has 32 bytes, and `%x` writes two digits for each.
abbrev pub HasSixtyFourDigits : Digest → Type 0
HasSixtyFourDigits d = (text : String) → count (d.sha256_hex text) ≡ 64

module _ (d : Digest) (digits : HasSixtyFourDigits d) where
  -- Equal keys come of one cluster and one digest.
  pub cache_key_inj :
      (a b : String) (s t : Spec)
      → cache_key d a s ≡ cache_key d b t
      → (a ≡ b) × (digest_of d s ≡ digest_of d t)
  unfolding cache_key
  cache_key_inj a b s t e =
      let lengths : count a ≡ count b = omega (
        arith,
        ap count e,
        length-append a ("|" <> digest_of d s),
        length-append b ("|" <> digest_of d t),
        length-append "|" (digest_of d s),
        length-append "|" (digest_of d t),
        digits (d.marshal s),
        digits (d.marshal t),
      ) in
      let (clusters, rests) = append_inj e lengths in
      (clusters, append_cancel_left "|" (digest_of d s) (digest_of d t) rests)

  -- If digests have 64 digits and the digests of two specs do not collide, reviews that share a
  -- cache key are for one cluster, ask the same, and are for users with the same name, UID and
  -- groups.
  pub cache_key_identifies :
      (u v : User) (a b : String) (s t : Spec)
      → (digest_of d (with_user u s) ≡ digest_of d (with_user v t) → with_user u s ≡ with_user v t)
      → cache_key d a (with_user u s) ≡ cache_key d b (with_user v t)
      → (a ≡ b)
        × (u.name ≡ v.name)
        × (u.uid ≡ v.uid)
        × (u.groups ≡ v.groups)
        × (s.resource_attributes ≡ t.resource_attributes)
        × (s.non_resource_attributes ≡ t.non_resource_attributes)
  unfolding with_user
  cache_key_identifies u v a b s t no_collision e =
      let (clusters, digests) = cache_key_inj a b (with_user u s) (with_user v t) e in
      let same = no_collision digests in
      (
        clusters,
        ap (λ r. r.user) same,
        ap (λ r. r.uid) same,
        ap (λ r. r.groups) same,
        ap (λ r. r.resource_attributes) same,
        ap (λ r. r.non_resource_attributes) same,
      )
