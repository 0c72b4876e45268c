-- ===== src/Api/DeepCopy/Arrays.antt =====
-- Copying the elements of an array, a slice, and the struct that holds it.
use mathlib.Core.List.{map}
use mathlib.Core.Logic.{if_neg}
use kcp_marketplace.Base.{
  ℕ, suc, zero, ◌≤◌, ◌<◌, ◌≡◌, refl, sym, ◌∙◌, ap, subst, Option, none, some, List, [], ◌∷◌, arith,
  ℕ_discrete, update_self,
}
use kcp_marketplace.Api.DeepCopy.{K8s, Slice, Cell, Memory, allocate, Into, copy_each, copy_slice}
use kcp_marketplace.Api.DeepCopy.Copier.{Each, Agree, Copier, IsLocal, Copies, sequence, below}

module _ (K : K8s) where
  allocate-Agree : (c : Cell K) (m : Memory K) → Agree K zero m.next m (allocate K c m).1
  unfolding allocate
  allocate-Agree c m a low high = elim (ℕ_discrete m.next a) [
    | yes same ↦ absurd (omega arith)
    | no differ ↦ sym (if_neg (ℕ_discrete m.next a) differ c (m.at a))
  ]

  allocate_there : (c : Cell K) (m : Memory K) → (allocate K c m).1.at m.next ≡ c
  unfolding allocate
  allocate_there c m = update_self m.at m.next c

  abbrev pub list : {X V : Type 0} → Copier K X V → Copier K (List X) (List V)
  list k = record {
    copy = copy_each K k.copy;
    Within = λ lo hi m xs. Each (k.Within lo hi m) xs;
    view = λ m xs. map (k.view m) xs;
    made = map k.made;
  }

  abbrev slice_view : {V : Type 0} → (ℕ → V) → Slice → Option V
  slice_view f none = none
  slice_view f (some a) = some (f a)

  abbrev SliceWithin : (ℕ → Type 0) → Slice → Type 0
  SliceWithin P none = Unit
  SliceWithin P (some a) = P a

  abbrev slice_made : {V W : Type 0} → (V → W) → Option V → Option W
  slice_made f none = none
  slice_made f (some v) = some (f v)

  abbrev pub slice :
      {X V : Type 0}
      → Copier K X V
      → (List X → Cell K)
      → (Cell K → List X)
      → Copier K Slice (Option (List V))
  slice k wrap unwrap = record {
    copy = copy_slice K wrap unwrap k.copy;
    Within = λ lo hi m s.
        SliceWithin (λ a. (lo ≤ a) × (a < hi) × Each (k.Within lo hi m) (unwrap (m.at a))) s;
    view = λ m s. slice_view (λ a. map (k.view m) (unwrap (m.at a))) s;
    made = slice_made (map k.made);
  }

  module _ {X V : Type 0} (k : Copier K X V) (kl : IsLocal K k) where
    list_local :
        (lo hi : ℕ) (m n : Memory K) (xs : List X)
        → Each (k.Within lo hi m) xs
        → Agree K lo hi m n
        → map (k.view n) xs ≡ map (k.view m) xs
    list_local lo hi m n [] w g = refl
    list_local lo hi m n (x ∷ xs) w g =
        cc (kl.local lo hi m n x w.0 g, list_local lo hi m n xs w.1 g)

    list_moves :
        (lo hi : ℕ) (m n : Memory K) (xs : List X)
        → Each (k.Within lo hi m) xs
        → Agree K lo hi m n
        → Each (k.Within lo hi n) xs
    list_moves lo hi m n [] w g = tt
    list_moves lo hi m n (x ∷ xs) w g = (kl.moves lo hi m n x w.0 g, list_moves lo hi m n xs w.1 g)

    list_widens :
        (lo hi lo1 hi1 : ℕ) (m : Memory K) (xs : List X)
        → lo1 ≤ lo
        → hi ≤ hi1
        → Each (k.Within lo hi m) xs
        → Each (k.Within lo1 hi1 m) xs
    list_widens lo hi lo1 hi1 m [] low high w = tt
    list_widens lo hi lo1 hi1 m (x ∷ xs) low high w =
        (kl.widens lo hi lo1 hi1 m x low high w.0, list_widens lo hi lo1 hi1 m xs low high w.1)

    pub list-IsLocal : IsLocal K (list k)
    list-IsLocal = record { local = list_local; moves = list_moves; widens = list_widens }

    pub list-Copies : Copies K k → Copies K (list k)
    unfolding copy_each
    list-Copies ck m [] w = record {
      grows = omega arith;
      keeps = λ a low high. refl;
      apart = tt;
      alike = refl;
    }
    list-Copies ck m (x ∷ xs) w =
        let c = ck m x w.0 in
        let n = (k.copy x m).1 in
        let rest =
          list-Copies ck n xs (below K k (list k) kl list-IsLocal m n xs c.grows c.keeps w.1) in
        let all =
          sequence K k (list k) kl list-IsLocal m x xs w.1 (k.copy x m) c (copy_each K k.copy xs n)
            rest in
        let same = all.alike in
        record { grows = all.grows; keeps = all.keeps; apart = all.apart; alike = cc }

    module _ (wrap : List X → Cell K) (unwrap : Cell K → List X)
        (unwraps : (xs : List X) → unwrap (wrap xs) ≡ xs) where
      abbrev part : Copier K Slice (Option (List V))
      part = slice k wrap unwrap

      slice_local :
          (lo hi : ℕ) (m n : Memory K) (s : Slice)
          → part.Within lo hi m s
          → Agree K lo hi m n
          → part.view n s ≡ part.view m s
      slice_local lo hi m n none w g = refl
      slice_local lo hi m n (some a) w g =
          let here = g a w.0 w.1 in let inside = list_local lo hi m n (unwrap (m.at a)) w.2 g in cc

      slice_moves :
          (lo hi : ℕ) (m n : Memory K) (s : Slice)
          → part.Within lo hi m s
          → Agree K lo hi m n
          → part.Within lo hi n s
      slice_moves lo hi m n none w g = tt
      slice_moves lo hi m n (some a) w g = (
        w.0,
        w.1,
        subst (λ c. Each (k.Within lo hi n) (unwrap c)) (g a w.0 w.1)
            (list_moves lo hi m n (unwrap (m.at a)) w.2 g),
      )

      slice_widens :
          (lo hi lo1 hi1 : ℕ) (m : Memory K) (s : Slice)
          → lo1 ≤ lo
          → hi ≤ hi1
          → part.Within lo hi m s
          → part.Within lo1 hi1 m s
      slice_widens lo hi lo1 hi1 m none low high w = tt
      slice_widens lo hi lo1 hi1 m (some a) low high w =
          let above = w.0 in
          let under = w.1 in
          (omega arith, omega arith, list_widens lo hi lo1 hi1 m (unwrap (m.at a)) low high w.2)

      pub slice-IsLocal : IsLocal K part
      slice-IsLocal = record { local = slice_local; moves = slice_moves; widens = slice_widens }

      pub slice-Copies : Copies K k → Copies K part
      unfolding copy_slice allocate
      slice-Copies ck m none w = record {
        grows = omega arith;
        keeps = λ a low high. refl;
        apart = tt;
        alike = refl;
      }
      slice-Copies ck m (some a) w =
          let xs = unwrap (m.at a) in
          let c =
            list-Copies ck m xs
              (list_widens zero m.next zero m.next m xs (omega arith) (omega arith) w.2) in
          let r = copy_each K k.copy xs m in
          let n = r.1 in
          let o = (allocate K (wrap r.0) n).1 in
          let there : unwrap (o.at n.next) ≡ r.0 =
            ap unwrap (allocate_there (wrap r.0) n) ∙ unwraps r.0 in
          let kept : Agree K zero n.next n o = allocate-Agree (wrap r.0) n in
          let kept_new : Agree K m.next n.next n o = λ b low high. kept b (omega arith) high in
          let inside =
            list_widens m.next n.next m.next (suc n.next) o r.0 (omega arith) (omega arith)
              (list_moves m.next n.next n o r.0 c.apart kept_new) in
          let grown = c.grows in
          let sees = list_local m.next n.next n o r.0 c.apart kept_new in
          record {
            grows = omega arith;
            keeps = λ b low high. c.keeps b low high ∙ kept b low (omega arith);
            apart = (
              grown,
              omega arith,
              subst (λ zs. Each (k.Within m.next (suc n.next) o) zs) (sym there) inside,
            );
            alike = ap some (ap (map (k.view o)) there ∙ (sees ∙ c.alike));
          }

  -- A struct `S` of which the code copies the part `f`; the other parts, `rest`, are assigned or, as
  -- metadata, copied by `g`.
  module _ {S X V P : Type 0} (k : Copier K X V) (f : S → X) (rest : S → P) (g : P → P)
      (into : Into K S) where
    abbrev pub struct : Copier K S (P × V)
    struct = record {
      copy = into;
      Within = λ lo hi m s. k.Within lo hi m (f s);
      view = λ m s. (rest s, k.view m (f s));
      made = λ v. (g v.0, k.made v.1);
    }

    pub struct-IsLocal : IsLocal K k → IsLocal K struct
    struct-IsLocal kl = record {
      local = λ lo hi m n s w h. ap (λ v. (rest s, v)) (kl.local lo hi m n (f s) w h);
      moves = λ lo hi m n s w h. kl.moves lo hi m n (f s) w h;
      widens = λ lo hi lo1 hi1 m s low high w. kl.widens lo hi lo1 hi1 m (f s) low high w;
    }

    pub struct-Copies :
        ((s : S) (m : Memory K) → (into s m).1 ≡ (k.copy (f s) m).1)
        → ((s : S) (m : Memory K) → f (into s m).0 ≡ (k.copy (f s) m).0)
        → ((s : S) (m : Memory K) → rest (into s m).0 ≡ g (rest s))
        → Copies K k
        → Copies K struct
    struct-Copies memory part others ck m s w =
        let c = ck m (f s) w in
        let same = memory s m in
        let copied = part s m in
        record {
          grows = rw same c.grows;
          keeps = rw same c.keeps;
          apart = rw (same, copied) c.apart;
          alike =
              let seen : k.view (into s m).1 (f (into s m).0) ≡ k.made (k.view m (f s)) =
                rw (same, copied) c.alike in
              let kept = others s m in cc;
        }
