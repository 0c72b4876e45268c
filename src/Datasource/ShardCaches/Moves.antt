-- ===== src/Datasource/ShardCaches/Moves.antt =====
-- Who holds which context, before and after a goroutine moves.
use mathlib.Core.Logic.{if_pos, if_neg}
use kcp_marketplace.Base.{
  ℕ, ◌≤◌, ◌<◌, String, ◌≡◌, ◌≢◌, sym, ◌∙◌, subst, ◌⊎◌, false, inl, inr, update, update_self,
  ℕ_discrete,
}
use kcp_marketplace.Datasource.ShardCaches.{Aggregate, Caches}
use kcp_marketplace.Datasource.ShardCaches.Steps.{Phase, syncing, ready, Holds}
use kcp_marketplace.Datasource.ShardCaches.Invariant.{IsActive, IsCoherent}

pub Holds-update :
    (f : ℕ → Phase) (i : ℕ) (p : Phase) (j h : ℕ)
    → Holds (update f i p j) h
    → ((i ≡ j) × Holds p h) ⊎ ((i ≢ j) × Holds (f j) h)
Holds-update f i p j h held = elim (ℕ_discrete i j) [
  | yes e ↦ inl (e, subst (λ q. Holds q h) (if_pos (ℕ_discrete i j) e p (f j)) held)
  | no e ↦ inr (e, subst (λ q. Holds q h) (if_neg (ℕ_discrete i j) e p (f j)) held)
]

pub Holds-update_self :
    (f : ℕ → Phase) (i : ℕ) (p : Phase) (h : ℕ) → Holds p h → Holds (update f i p i) h
Holds-update_self f i p h held = rw (update_self f i p) held

pub Holds-update_ne :
    (f : ℕ → Phase) (i : ℕ) (p : Phase) (j h : ℕ) → i ≢ j → Holds (f j) h → Holds (update f i p j) h
Holds-update_ne f i p j h differ held = rw (if_neg (ℕ_discrete i j) differ p (f j)) held

-- A goroutine holds one context at a time.
pub Holds-inj : (p : Phase) (c k : ℕ) → Holds p c → Holds p k → c ≡ k
Holds-inj (syncing _ h) c k a b = sym a ∙ b
Holds-inj (ready _ h) c k a b = sym a ∙ b
Holds-inj _ c k a b = absurd a

module _ (A : Aggregate) where
  -- A shard's registration has the context, or a goroutine in `ensure` has it.
  abbrev pub Owned : Caches A → (ℕ → Phase) → ℕ → Type 0
  Owned s f c = ((id : String) × IsActive A s id c) ⊎ ((i : ℕ) × Holds (f i) c)

  pub record IsSafe (s : Caches A) (f : ℕ → Phase) : Type 0 where
    pub coherent : IsCoherent A s
    pub held : (i c : ℕ) → Holds (f i) c → (c < s.contexts) × (s.is_cancelled c ≡ false)
    pub apart : (i c : ℕ) → Holds (f i) c → (id : String) → ¬ IsActive A s id c
    pub alone : (i j c : ℕ) → Holds (f i) c → Holds (f j) c → i ≡ j
    pub unmade : (c : ℕ) → s.contexts ≤ c → s.is_cancelled c ≡ false
    pub no_leak : (c : ℕ) → c < s.contexts → s.is_cancelled c ≡ false → Owned s f c

  -- A move that changes neither the caches nor what its goroutine holds.
  pub phase-IsSafe :
      (s : Caches A) (f : ℕ → Phase) (i : ℕ) (p : Phase)
      → ((c : ℕ) → Holds p c → Holds (f i) c)
      → ((c : ℕ) → Holds (f i) c → Holds p c)
      → IsSafe s f
      → IsSafe s (update f i p)
  phase-IsSafe s f i p back forth v = record {
    coherent = v.coherent;
    held = λ j c h. v.held j c (was j c h);
    apart = λ j c h. v.apart j c (was j c h);
    alone = λ j k c h g. v.alone j k c (was j c h) (was k c g);
    unmade = v.unmade;
    no_leak = λ c below alive. elim (v.no_leak c below alive) [
      | inl active ↦ inl active
      | inr (j, h) ↦ inr (j, is j c h)
    ];
  }
    where
      was : (j c : ℕ) → Holds (update f i p j) c → Holds (f j) c
      was j c h = elim (Holds-update f i p j c h) [
        | inl (e, mine) ↦ subst (λ k. Holds (f k) c) e (back c mine)
        | inr (_, other) ↦ other
      ]

      is : (j c : ℕ) → Holds (f j) c → Holds (update f i p j) c
      is j c h = elim (ℕ_discrete i j) [
        | yes e ↦
            subst (λ k. Holds (update f i p k) c) e
              (Holds-update_self f i p c (forth c (subst (λ k. Holds (f k) c) (sym e) h)))
        | no e ↦ Holds-update_ne f i p j c e h
      ]
