-- ===== src/Sar/Interleaving/Sequential.antt =====
-- A goroutine that runs alone does what `review` does.
use kcp_marketplace.Base.{
  ℕ, ◌+◌, String, ◌≡◌, refl, ap, inl, inr, Bool, ◌∷◌, ◌∙◌, update, update_self, arith, Bool-cases,
}
use kcp_marketplace.Errors.{Ctx, review_failed, Result, ok, err, Result-cases}
use kcp_marketplace.Sar.{Digest, User, Spec, with_user, cache_key, get, put, review}
use kcp_marketplace.Sar.Interleaving.{
  asking, missed, answered, done, answer, store, result, System, Step, tick, begin, hit, miss,
  reply, fail, save, leave, Reach, here, next,
}

module _ (d : Digest) (client : Ctx → String → Spec → Result Bool) (ctx : Ctx) where
  -- A step of goroutine `i` inside `review`, or of the clock, in which the server's answer or its
  -- failure is what the client returns.
  abbrev pub MovesAlone : (i : ℕ) {s t : System} → Step d s t → Type 0
  MovesAlone i (tick _) = Unit
  MovesAlone i (begin _ _ _ _ _) = ⊥
  MovesAlone i (hit j _ _ _ _ _) = i ≡ j
  MovesAlone i (miss j _ _ _ _) = i ≡ j
  MovesAlone i (reply j cluster spec allowed _) = (i ≡ j) × (client ctx cluster spec ≡ ok allowed)
  MovesAlone i (fail j cluster spec cause _) = (i ≡ j) × (client ctx cluster spec ≡ err cause)
  MovesAlone i (save j _ _ _ _) = i ≡ j
  MovesAlone i (leave _ _ _) = ⊥

  abbrev pub RunsAlone : (i : ℕ) {s t : System} → Reach d s t → Type 0
  RunsAlone i here = Unit
  RunsAlone i (next run step) = RunsAlone i run × MovesAlone i step

module _ (d : Digest) (client : Ctx → String → Spec → Result Bool) (ctx : Ctx) (u : User)
    (cluster : String) (asked : Spec) where
  -- From the point before `get`, a goroutine has a run of its own, with the clock, in which any
  -- answer or failure of the server is what the client returns, and which ends with the result
  -- and the cache that `review` gives, for any time between the two readings of the clock.
  pub review-Reach :
      (s : System) (i wait : ℕ)
      → s.phase i ≡ asking cluster (with_user u asked)
      → let (r, c) = review d client s.checker (s.clock, s.clock + wait) ctx u cluster asked in
        (t : System) × (run : Reach d s t) × RunsAlone d client ctx i run
        × (t.phase i ≡ done r)
        × (t.checker ≡ c)
  unfolding review
  review-Reach s i wait at = elim (Bool-cases (get s.checker s.clock key).1) [
    | inl found ↦
        let allowed = (get s.checker s.clock key).0 in
        (
          record s {
            phase = update s.phase i (done (ok allowed));
            log = result s.clock cluster spec allowed ∷ s.log;
          },
          next here (hit i cluster spec allowed at (ground arith)),
          (tt, refl),
          update_self s.phase i (done (ok allowed)) ∙ ap done (ground arith),
          ground arith,
        )
    | inr absent ↦ elim (Result-cases (client ctx cluster spec)) [
      | inl (allowed, said) ↦
          let replied = record asking_server {
            phase = update asking_server.phase i (answered cluster spec allowed);
            log = answer s.clock cluster spec allowed ∷ s.log;
          } in
          let waited = record replied { clock = s.clock + wait } in
          (
            record {
              checker = put s.checker (s.clock + wait) key allowed;
              clock = s.clock + wait;
              phase = update replied.phase i (done (ok allowed));
              log =
                  result (s.clock + wait) cluster spec allowed
                  ∷ store (s.clock + wait) key allowed
                  ∷ replied.log;
            },
            next
                (next
                  (next (next here (miss i cluster spec at absent))
                    (reply i cluster spec allowed (update_self s.phase i _)))
                  (tick wait))
                (save i cluster spec allowed (update_self asking_server.phase i _)),
            ((((tt, refl), (refl, said)), tt), refl),
            update_self replied.phase i (done (ok allowed)) ∙ ap done (ground arith),
            ground arith,
          )
      | inr (cause, failed) ↦ (
        record asking_server {
          phase = update asking_server.phase i (done (err (review_failed cluster cause)));
        },
        next (next here (miss i cluster spec at absent))
            (fail i cluster spec cause (update_self s.phase i _)),
        ((tt, refl), (refl, failed)),
        update_self asking_server.phase i (done (err (review_failed cluster cause)))
            ∙ ap done (ground arith),
        ground arith,
      )
    ]
  ]
    where
      spec : Spec
      spec = with_user u asked

      key : String
      key = cache_key d cluster spec

      asking_server : System
      asking_server = record s { phase = update s.phase i (missed cluster spec) }
