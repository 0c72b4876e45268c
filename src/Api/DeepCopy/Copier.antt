-- ===== src/Api/DeepCopy/Copier.antt =====
-- How the memory of a value, of a list of values, of a slice and of a struct is copied: what the
-- functions of zz_generated.deepcopy.go have in common.
use kcp_marketplace.Base.{ℕ, zero, ◌≤◌, ◌<◌, ◌≡◌, refl, ◌∙◌, List, [], ◌∷◌, arith}
use kcp_marketplace.Api.DeepCopy.{K8s, Memory, Into}

abbrev pub Each : {A : Type 0} → (A → Type 0) → List A → Type 0
Each P [] = Unit
Each P (x ∷ xs) = P x × Each P xs

module _ (K : K8s) where
  -- Two memories have the same arrays from one address up to another.
  abbrev pub Agree : ℕ → ℕ → Memory K → Memory K → Type 0
  Agree lo hi m n = (a : ℕ) → lo ≤ a → a < hi → m.at a ≡ n.at a

  -- A way to copy a value: the code, that all its arrays lie between two addresses, its contents,
  -- and the contents that a copy has.
  pub record Copier (X V : Type 0) : Type 1 where
    pub copy : Into K X
    pub Within : ℕ → ℕ → Memory K → X → Type 0
    pub view : Memory K → X → V
    pub made : V → V

  -- Only the arrays of a value matter to it.
  pub record IsLocal {X V : Type 0} (k : Copier X V) : Type 0 where
    pub local :
        (lo hi : ℕ) (m n : Memory K) (x : X)
        → k.Within lo hi m x
        → Agree lo hi m n
        → k.view n x ≡ k.view m x
    pub moves :
        (lo hi : ℕ) (m n : Memory K) (x : X)
        → k.Within lo hi m x
        → Agree lo hi m n
        → k.Within lo hi n x
    pub widens :
        (lo hi lo1 hi1 : ℕ) (m : Memory K) (x : X)
        → lo1 ≤ lo
        → hi ≤ hi1
        → k.Within lo hi m x
        → k.Within lo1 hi1 m x

  -- A copy keeps what there was and has its contents in new arrays.
  pub record Copied {X V : Type 0} (k : Copier X V) (m : Memory K) (x : X) (r : X × Memory K)
      : Type 0 where
    pub grows : m.next ≤ r.1.next
    pub keeps : Agree zero m.next m r.1
    pub apart : k.Within m.next r.1.next r.1 r.0
    pub alike : k.view r.1 r.0 ≡ k.made (k.view m x)

  abbrev pub Copies : {X V : Type 0} → Copier X V → Type 0
  Copies {X} {V} k = (m : Memory K) (x : X) → k.Within zero m.next m x → Copied k m x (k.copy x m)

  -- A value without arrays, of which `f` makes the copy.
  abbrev pub plain : {X : Type 0} → (X → X) → Copier X X
  plain f = record { copy = λ x m. (f x, m); Within = λ _ _ _ _. Unit; view = λ _ x. x; made = f }

  pub plain-IsLocal : {X : Type 0} (f : X → X) → IsLocal (plain f)
  plain-IsLocal f = record {
    local = λ _ _ _ _ _ _ _. refl;
    moves = λ _ _ _ _ _ _ _. tt;
    widens = λ _ _ _ _ _ _ _ _ _. tt;
  }

  pub plain-Copies : {X : Type 0} (f : X → X) → Copies (plain f)
  plain-Copies f m x h = record {
    grows = (omega arith);
    keeps = λ a low high. refl;
    apart = tt;
    alike = refl;
  }

  -- Two values, one copied after the other.
  abbrev pub both : {X V Y W : Type 0} → Copier X V → Copier Y W → Copier (X × Y) (V × W)
  both k l = record {
    copy = λ p m. let r = k.copy p.0 m in let q = l.copy p.1 r.1 in ((r.0, q.0), q.1);
    Within = λ lo hi m p. k.Within lo hi m p.0 × l.Within lo hi m p.1;
    view = λ m p. (k.view m p.0, l.view m p.1);
    made = λ v. (k.made v.0, l.made v.1);
  }

  module _ {X V Y W : Type 0} (k : Copier X V) (l : Copier Y W) (kl : IsLocal k)
      (ll : IsLocal l) where
    pub both-IsLocal : IsLocal (both k l)
    both-IsLocal = record {
      local = λ lo hi m n p w g. cc (kl.local lo hi m n p.0 w.0 g, ll.local lo hi m n p.1 w.1 g);
      moves = λ lo hi m n p w g. (kl.moves lo hi m n p.0 w.0 g, ll.moves lo hi m n p.1 w.1 g);
      widens = λ lo hi lo1 hi1 m p low high w.
          (kl.widens lo hi lo1 hi1 m p.0 low high w.0, ll.widens lo hi lo1 hi1 m p.1 low high w.1);
    }

    pub sequence :
        (m : Memory K) (x : X) (y : Y)
        → l.Within zero m.next m y
        → (r : X × Memory K) → Copied k m x r
        → (q : Y × Memory K) → Copied l r.1 y q
        → Copied (both k l) m (x, y) ((r.0, q.0), q.1)
    sequence m x y w r c q d =
        let grown = c.grows in
        let grown_again = d.grows in
        record {
          grows = (omega arith);
          keeps = λ a low high. c.keeps a low high ∙ d.keeps a low (omega arith);
          apart = (
            kl.widens m.next r.1.next m.next q.1.next q.1 r.0 (omega arith) (omega arith) (
                kl.moves m.next r.1.next r.1 q.1 r.0 c.apart
                  (λ a low high. d.keeps a (omega arith) high)),
            ll.widens r.1.next q.1.next m.next q.1.next q.1 q.0 (omega arith) (omega arith) d.apart,
          );
          alike =
              let first =
                kl.local m.next r.1.next r.1 q.1 r.0 c.apart
                  (λ a low high. d.keeps a (omega arith) high) in
              let was = ll.local zero m.next m r.1 y w c.keeps in
              let one = c.alike in let two = d.alike in cc;
        }

    pub below :
        (m n : Memory K) (y : Y)
        → m.next ≤ n.next
        → Agree zero m.next m n
        → l.Within zero m.next m y
        → l.Within zero n.next n y
    below m n y grown same w =
        ll.widens zero m.next zero n.next n y (omega arith) grown
          (ll.moves zero m.next m n y w same)

    pub both-Copies : Copies k → Copies l → Copies (both k l)
    both-Copies ck cl m (x, y) w =
        let c = ck m x w.0 in
        sequence m x y w.1 (k.copy x m) c _
          (cl (k.copy x m).1 y (below m (k.copy x m).1 y c.grows c.keeps w.1))
