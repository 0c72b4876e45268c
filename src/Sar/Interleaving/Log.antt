-- ===== src/Sar/Interleaving/Log.antt =====
-- What the log of events says of the decisions in the cache and of the results.
use kcp_marketplace.Base.{ℕ, ◌+◌, ◌≤◌, String, ◌≡◌, Bool, List, [], ◌∷◌, arith, Any}
use kcp_marketplace.Sar.{Digest, Entry, cache_key}
use kcp_marketplace.Sar.Interleaving.{Event, answer, store, result}

module _ (d : Digest) where
  -- The server gave the answer, to a review with the key, at the time or before.
  abbrev pub Answers : String → Bool → ℕ → Event → Type 0
  Answers key allowed now (answer t cluster spec a) =
      (cache_key d cluster spec ≡ key) × (a ≡ allowed) × (t ≤ now)
  Answers key allowed now _ = ⊥

  pub Answers-later :
      (key : String) (a : Bool) (t u : ℕ)
      → t ≤ u
      → (ev : Event) → Answers key a t ev
      → Answers key a u ev
  Answers-later key a t u h (answer _ _ _ _) p = ground arith
  Answers-later key a t u h (store _ _ _) p = absurd p
  Answers-later key a t u h (result _ _ _ _) p = absurd p

module _ (ttl : ℕ) where
  -- The decision was stored at the time or before, less than the TTL ago.
  abbrev pub Stores : String → Bool → ℕ → Event → Type 0
  Stores key allowed now (store t k a) = (k ≡ key) × (a ≡ allowed) × (t ≤ now) × (now ≤ t + ttl)
  Stores key allowed now _ = ⊥

  -- The entry was written at the time or before.
  abbrev pub Wrote : String → Entry → ℕ → Event → Type 0
  Wrote key e now (store t k a) = (k ≡ key) × (a ≡ e.allowed) × (t ≤ now) × (t + ttl ≡ e.expires)
  Wrote key e now _ = ⊥

  pub Wrote-later :
      (key : String) (e : Entry) (t u : ℕ)
      → t ≤ u
      → (ev : Event) → Wrote key e t ev
      → Wrote key e u ev
  Wrote-later key e t u h (store _ _ _) p = ground arith
  Wrote-later key e t u h (answer _ _ _ _) p = absurd p
  Wrote-later key e t u h (result _ _ _ _) p = absurd p

  -- A hit is a write that has not expired.
  pub Stores-of_Wrote :
      (key : String) (e : Entry) (now : ℕ)
      → now ≤ e.expires
      → (ev : Event) → Wrote key e now ev
      → Stores key e.allowed now ev
  Stores-of_Wrote key e now h (store _ _ _) w = ground arith
  Stores-of_Wrote key e now h (answer _ _ _ _) w = absurd w
  Stores-of_Wrote key e now h (result _ _ _ _) w = absurd w

module _ (d : Digest) (ttl : ℕ) where
  -- Each result comes after a write of that decision which has not expired, and each write after
  -- an answer of the server.
  abbrev pub IsJustified : List Event → Type 0
  IsJustified [] = Unit
  IsJustified (answer t cluster spec allowed ∷ log) = IsJustified log
  IsJustified (store t key allowed ∷ log) = Any (Answers d key allowed t) log × IsJustified log
  IsJustified (result t cluster spec allowed ∷ log) =
      Any (Stores ttl (cache_key d cluster spec) allowed t) log × IsJustified log
