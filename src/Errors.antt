-- ===== src/Errors.antt =====
-- Go's pair of a value and an error, and the errors of pkg/ and cmd/. The constructors stand for the
-- `fmt.Errorf` calls, with the values that the messages show; the texts are not modelled.
use kcp_marketplace.Base.{String, ◌≡◌, refl, ◌⊎◌, inl, inr}

-- Whether the context of a call is cancelled.
pub data Ctx : Type 0 where
  live cancelled : Ctx

pub data Error : Type 0 where
  external : String → Error  -- from code that the repository calls
  context_cancelled : Error  -- `ctx.Err()`
  review_failed : (cluster : String) → Error → Error
  no_base_url : (shard : String) → Error
  bad_base_url : (shard url : String) → Error → Error
  cache_not_built : (shard : String) → Error → Error
  cache_not_synced : (shard : String) → Error
  no_client_ca_file : Error
  client_ca_not_loaded : (file : String) → Error → Error
  kubeconfig_not_loaded : Error → Error
  bad_front_proxy_url : (url : String) → Error → Error
  review_client_not_built : Error → Error
  shards_not_synced : Error

pub data Result {ℓ} (A : Type ℓ) : Type ℓ where
  ok : A → Result A
  err : Error → Result A

infixl 5 ◌>>=◌
abbrev pub ◌>>=◌ {ℓ κ} : {A : Type ℓ} {B : Type κ} → Result A → (A → Result B) → Result B
ok a >>= f = f a
err e >>= f = err e

pub Result-cases {ℓ} :
    {A : Type ℓ} (r : Result A) → ((a : A) × (r ≡ ok a)) ⊎ ((e : Error) × (r ≡ err e))
Result-cases (ok a) = inl (a, refl)
Result-cases (err e) = inr (e, refl)

-- `fmt.Errorf` on the error of a call.
abbrev pub failing {ℓ} : {A : Type ℓ} → (Error → Error) → Result A → Result A
failing wrap (ok a) = ok a
failing wrap (err e) = err (wrap e)

pub failing-ok {ℓ} :
    {A : Type ℓ} (wrap : Error → Error) (r : Result A) (a : A) → failing wrap r ≡ ok a → r ≡ ok a
failing-ok wrap (ok b) a h = h
failing-ok wrap (err e) a h = absurd (cc)

-- A chain that succeeds has succeeded at its first link, and then at the rest.
pub bind-ok {ℓ κ} :
    {A : Type ℓ} {B : Type κ} (r : Result A) (f : A → Result B) (b : B)
    → r >>= f ≡ ok b
    → (a : A) × (r ≡ ok a) × (f a ≡ ok b)
bind-ok (ok a) f b h = (a, refl, h)
bind-ok (err e) f b h = absurd (cc)
