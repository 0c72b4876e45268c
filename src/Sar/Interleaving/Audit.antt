-- ===== src/Sar/Interleaving/Audit.antt =====
-- No decision is invented, and none outlives its TTL, whatever the goroutines do.
use kcp_marketplace.Base.{
  ℕ, ◌+◌, ◌≤◌, String, ◌≡◌, refl, sym, ap, subst, inl, inr, Bool, true, some, List, ◌∷◌, arith, Any,
  Any-imp, update, update_all, Option-cases, String-discrete, ◌==◌, if◌then◌else◌,
}
use kcp_marketplace.Base.GoMap.{lookup, insert, lookup-insert}
use kcp_marketplace.Errors.{ok}
use kcp_marketplace.Sar.{Digest, Checker, Entry, new, cache_key, get, put}
use kcp_marketplace.Sar.Interleaving.{
  Phase, answered, done, Event, answer, store, result, System, start, Step, tick, begin, hit, miss,
  reply, fail, save, leave, Reach, here, next,
}
use kcp_marketplace.Sar.Interleaving.Log.{
  Answers, IsJustified, Stores, Wrote, Answers-later, Wrote-later, Stores-of_Wrote,
}

module _ (d : Digest) (ttl : ℕ) where
  abbrev Pending : ℕ → List Event → Phase → Type 0
  Pending now log (answered cluster spec allowed) =
      Any (Answers d (cache_key d cluster spec) allowed now) log
  Pending now log _ = Unit

  record Inv (s : System) : Type 0 where
    justified : IsJustified d ttl s.log
    cached :
        (key : String) (e : Entry)
        → lookup key s.checker.cache ≡ some e
        → Any (Wrote ttl key e s.clock) s.log
    pending : (i : ℕ) → Pending s.clock s.log (s.phase i)
    same_ttl : s.checker.ttl ≡ ttl

  start-Inv : Inv (start ttl)
  unfolding new lookup
  start-Inv = record {
    justified = tt;
    cached = λ key e h. absurd (cc);
    pending = λ i. tt;
    same_ttl = refl;
  }

  Pending-mono :
      (now later : ℕ) (log more : List Event)
      → ((key : String) (a : Bool)
          → Any (Answers d key a now) log
          → Any (Answers d key a later) more)
      → (p : Phase) → Pending now log p
      → Pending later more p
  Pending-mono now later log more f (answered cluster spec a) h = f (cache_key d cluster spec) a h
  Pending-mono now later log more f _ h = tt

  get_hit :
      (c : Checker) (now : ℕ) (key : String) (allowed : Bool)
      → get c now key ≡ (allowed, true)
      → (e : Entry) × (lookup key c.cache ≡ some e) × (e.allowed ≡ allowed) × (now ≤ e.expires)
  unfolding get
  get_hit c now key allowed h = elim (Option-cases (lookup key c.cache)) [
    | inl missing ↦ absurd (ground arith)
    | inr (e, found) ↦ (e, found, ground arith, ground arith)
  ]

  -- A step that moves one goroutine, and adds nothing to the log.
  moved-Inv :
      (s : System) (i : ℕ) (p : Phase)
      → Pending s.clock s.log p
      → Inv s
      → Inv (record s { phase = update s.phase i p })
  moved-Inv s i p h v = record {
    justified = v.justified;
    cached = v.cached;
    pending = update_all (Pending s.clock s.log) s.phase i p h v.pending;
    same_ttl = v.same_ttl;
  }

  -- A step that moves one goroutine and adds to the log.
  logged-Pending :
      (s : System) (more : List Event) (i : ℕ) (p : Phase)
      → Pending s.clock more p
      → ((P : Event → Type 0) → Any P s.log → Any P more)
      → Inv s
      → (j : ℕ) → Pending s.clock more (update s.phase i p j)
  logged-Pending s more i p h keep v =
      update_all (Pending s.clock more) s.phase i p h
        (λ j. Pending-mono s.clock s.clock s.log more (λ key a. keep _) (s.phase j) (v.pending j))

  hit_Stores :
      (s : System) (key : String) (allowed : Bool)
      → get s.checker s.clock key ≡ (allowed, true)
      → Inv s
      → Any (Stores ttl key allowed s.clock) s.log
  hit_Stores s key allowed found v =
      let (e, stored, same, fresh) = get_hit s.checker s.clock key allowed found in
      subst (λ a. Any (Stores ttl key a s.clock) s.log) same
        (Any-imp _ _ s.log (Stores-of_Wrote ttl key e s.clock fresh) (v.cached key e stored))

  -- After a write, an entry was written now, or it stood there before.
  put-Wrote :
      (s : System) (key : String) (allowed : Bool)
      → Inv s
      → (other : String) (e : Entry)
      → lookup other (put s.checker s.clock key allowed).cache ≡ some e
      → Any (Wrote ttl other e s.clock) (store s.clock key allowed ∷ s.log)
  unfolding put
  put-Wrote s key allowed v other e h = elim (String-discrete other key) [
    | yes same ↦
        let put_now = entry_eq same in
        inl (
          sym same,
          ap (λ r. r.allowed) put_now,
          omega arith,
          omega (arith, v.same_ttl, ap (λ (r : Entry). r.expires) put_now),
        )
    | no differ ↦ inr (v.cached other e (ground (arith, looked_up)))
  ]
    where
      written : Entry
      written = record { allowed = allowed; expires = s.clock + s.checker.ttl }

      looked_up :
          lookup other (insert key written s.checker.cache)
          ≡ (if other == key then some written else lookup other s.checker.cache)
      looked_up = lookup-insert other key written s.checker.cache

      entry_eq : other ≡ key → written ≡ e
      entry_eq same = ground (arith, looked_up)

  put_ttl :
      (s : System) (key : String) (allowed : Bool)
      → Inv s
      → (put s.checker s.clock key allowed).ttl ≡ ttl
  unfolding put
  put_ttl s key allowed v = v.same_ttl

  Step-Inv : {s t : System} → Step d s t → Inv s → Inv t
  Step-Inv {s} (tick n) v = record {
    justified = v.justified;
    cached = λ key e h.
        Any-imp _ _ s.log (Wrote-later ttl key e s.clock (s.clock + n) (omega arith))
          (v.cached key e h);
    pending = λ i.
        Pending-mono s.clock (s.clock + n) s.log s.log
          (λ key a. Any-imp _ _ s.log (Answers-later d key a s.clock (s.clock + n) (omega arith)))
          (s.phase i) (v.pending i);
    same_ttl = v.same_ttl;
  }
  Step-Inv {s} (begin i u cluster asked at) v = moved-Inv s i _ tt v
  Step-Inv {s} (hit i cluster spec allowed at found) v = record {
    justified = (hit_Stores s (cache_key d cluster spec) allowed found v, v.justified);
    cached = λ key e h. inr (v.cached key e h);
    pending =
        logged-Pending s (result s.clock cluster spec allowed ∷ s.log) i (done (ok allowed)) tt
          (λ P. inr) v;
    same_ttl = v.same_ttl;
  }
  Step-Inv {s} (miss i cluster spec at absent) v = moved-Inv s i _ tt v
  Step-Inv {s} (reply i cluster spec allowed at) v = record {
    justified = v.justified;
    cached = λ key e h. inr (v.cached key e h);
    pending =
        logged-Pending s (answer s.clock cluster spec allowed ∷ s.log) i
          (answered cluster spec allowed) (inl (refl, refl, omega arith)) (λ P. inr) v;
    same_ttl = v.same_ttl;
  }
  Step-Inv {s} (fail i cluster spec cause at) v = moved-Inv s i _ tt v
  Step-Inv {s} (save i cluster spec allowed at) v = record {
    justified = (
      inl (refl, refl, omega arith, omega arith),
      (subst (Pending s.clock s.log) at (v.pending i), v.justified),
    );
    cached = λ key e h. inr (put-Wrote s (cache_key d cluster spec) allowed v key e h);
    pending =
        logged-Pending s
          (result s.clock cluster spec allowed
            ∷ store s.clock (cache_key d cluster spec) allowed
            ∷ s.log)
          i (done (ok allowed)) tt (λ P h. inr (inr h)) v;
    same_ttl = put_ttl s (cache_key d cluster spec) allowed v;
  }
  Step-Inv {s} (leave i r at) v = moved-Inv s i _ tt v

  Reach-Inv : {s t : System} → Inv s → Reach d s t → Inv t
  Reach-Inv v here = v
  Reach-Inv v (next r st) = Step-Inv st (Reach-Inv v r)

  -- In every state that any number of goroutines in `review` reach from an empty cache, each
  -- result rests on a write of the same decision under its key that was at most the TTL old, and
  -- each write on an earlier answer of the server under its key.
  pub results-IsJustified : {s : System} → Reach d (start ttl) s → IsJustified d ttl s.log
  results-IsJustified r = (Reach-Inv start-Inv r).justified
