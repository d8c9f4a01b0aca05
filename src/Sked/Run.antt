-- ===== src/Sked/Run.antt =====
-- `runAll` of Sked.cc: which clients it calls, and that it ends.
use c10kcode.Common.{
  ltb, ℕ, zero, suc, ◌<◌, ◌≡◌, ◌≢◌, refl, sym, ◌∙◌, none, some, length, if◌then◌else◌, if_else,
  ==→ne, List, [], ◌∷◌, arith, ◌==◌, ◌||◌, not, true, false, Bool-cases, inl, inr, eq→==, lt→ltb,
  ltb→le, ltb→lt,
}
use c10kcode.Eclock.{eclock_after}
use c10kcode.Eclock.Window.{InWindow, eclock_after-age}
use c10kcode.Sked.{
  Sked, SkedRecord, Outcome, returned, aborted, unfinished, client_at, when_at, pop, run_all, empty,
  asserted, ◌>>=◌,
}
use c10kcode.Sked.Links.{scheduled}
use c10kcode.Sked.Sift.{in_window}
use c10kcode.Sked.Valid.{IsValid, top_lem}
use c10kcode.Sked.Pop.{Drops, pop_lem}
use c10kcode.Sked.Covered.{
  Within, Covers, without, without-Within, length-without-lt, queued_clients, queued_clients-Covers,
}

-- What the clients' callbacks must keep to: the invariant, which every public method keeps, and that
-- they schedule nobody for a time that has come. They may cancel events, and schedule any number of
-- clients, their own included, for later times.
pub record Behaves (base now : ℕ) (callback : ℕ → ℕ → Sked → Sked) : Type 0 where
  pub valid : (c : ℕ) (s : Sked) → IsValid base s → IsValid base (callback c now s)
  pub no_new_due :
      (c : ℕ) (s : Sked)
      → IsValid base s
      → (d w : ℕ) → scheduled (callback c now s) d ≡ some w
      → eclock_after w now ≡ false
      → scheduled s d ≡ some w

abbrev pub AllDue : ℕ → List SkedRecord → Type 0
AllDue now [] = Unit {0}
AllDue now (r ∷ rs) = (eclock_after r.when now ≡ false) × AllDue now rs

-- A run of the scheduler: success, a valid scheduler, only clients called whose time had come, and
-- none left whose time has come.
abbrev pub RunsDue : ℕ → ℕ → Outcome (ℕ × List SkedRecord × Sked) → Type 0
RunsDue base now (returned (e, called, t)) =
    (e ≡ 0)
    × IsValid base t
    × AllDue now called
    × ((c w : ℕ) → scheduled t c ≡ some w → eclock_after w now ≡ true)
RunsDue base now _ = ⊥

module _ {base now : ℕ} (callback : ℕ → ℕ → Sked → Sked) (b : Behaves base now callback)
    (win : InWindow base now) where
  none_due :
      (s : Sked)
      → IsValid base s
      → (0 < s.used → eclock_after (when_at s 1) now ≡ true)
      → (c w : ℕ) → scheduled s c ≡ some w
      → eclock_after w now ≡ true
  none_due s v late c w e =
      let i = s.sked_index c in
      let nz : i ≢ 0 = ground arith in
      let i1 = v.good.links.from c tt nz in
      let i2 = v.good.links.to c tt nz in
      let queued : 0 < s.used = omega arith in
      let top_win = in_window s 1 v.good (omega arith) queued in
      let w_win = v.good.window c w tt e in
      let not_before = (top_lem v queued).1 c w e in
      let cmp1 = eclock_after-age (when_at s 1) now v.good.start top_win win in
      let cmp2 = eclock_after-age (when_at s 1) w v.good.start top_win w_win in
      let cmp3 = eclock_after-age w now v.good.start w_win win in
      cmp3
      ∙ lt→ltb _ _
          (omega (arith, ltb→lt _ _ (sym cmp1 ∙ late queued), ltb→le _ _ (sym cmp2 ∙ not_before)))

  -- The record called first stands before those of the rest of the run.
  called_first :
      (p : SkedRecord) (o : Outcome (ℕ × List SkedRecord × Sked))
      → eclock_after p.when now ≡ false
      → RunsDue base now o
      → RunsDue base now (o >>= λ r. returned (r.0, p ∷ r.1, r.2))
  called_first p aborted due r = r
  called_first p unfinished due r = r
  called_first p (returned (e, called, t)) due (ok, v, all, later) = (ok, v, (due, all), later)

  -- Behind the call of the top, the others of the list are all that may be due.
  pub others_due :
      (s t : Sked) (ds : List ℕ)
      → Covers now ds s
      → IsValid base t
      → ((d : ℕ) → scheduled t d ≡ (if d == client_at s 1 then none else scheduled s d))
      → Covers now (without (client_at s 1) ds) (callback (client_at s 1) now t)
  others_due s t ds covers v gone d w e due =
      let before : scheduled t d ≡ some w = b.no_new_due (client_at s 1) t v d w e due in
      elim (Bool-cases (d == client_at s 1)) [
        | inl top ↦ absurd (ground (arith, gone d, before))
        | inr other ↦
            without-Within (client_at s 1) d ds (==→ne d (client_at s 1) other)
              (covers d w (sym (gone d ∙ if_else _ none (scheduled s d) other) ∙ before) due)
      ]

  after_pop :
      (fuel : ℕ) (s : Sked) (ds : List ℕ) (o : Outcome Sked)
      → Covers now ds s
      → Within (client_at s 1) ds
      → length ds < suc fuel
      → eclock_after (when_at s 1) now ≡ false
      → ((u : Sked) (es : List ℕ)
          → IsValid base u
          → Covers now es u
          → length es < fuel
          → RunsDue base now (run_all callback fuel u now))
      → Drops base s (client_at s 1) o
      → RunsDue base now (
          o >>= λ t. asserted (t.sked_index (client_at s 1) == 0) (
            run_all callback fuel (callback (client_at s 1) now t) now >>= λ r.
            returned (r.0, s.records 1 ∷ r.1, r.2)))
  after_pop fuel s ds aborted covers top f due rest d = d
  after_pop fuel s ds unfinished covers top f due rest d = d
  after_pop fuel s ds (returned t) covers top f due rest (v, fewer, gone) =
      let idle : t.sked_index (client_at s 1) ≡ 0 = ground (arith, gone (client_at s 1)) in
      rw (eq→== _ _ idle) (
        called_first (s.records 1) _ due (
          rest _ (without (client_at s 1) ds) (b.valid (client_at s 1) t v)
            (others_due s t ds covers v gone)
            (omega (arith, f, length-without-lt (client_at s 1) ds top))))

  run_all_covered :
      (fuel : ℕ) (s : Sked) (ds : List ℕ)
      → IsValid base s
      → Covers now ds s
      → length ds < fuel
      → RunsDue base now (run_all callback fuel s now)
  unfolding run_all
  run_all_covered zero s ds v covers f = absurd (omega arith)
  run_all_covered (suc fuel) s ds v covers f =
      elim (Bool-cases (empty s || eclock_after (when_at s 1) now)) [
        | inl done ↦ rw done (refl, v, tt, none_due s v (λ queued. ground arith))
        | inr more ↦
            let queued : 0 < s.used = ground arith in
            let due : eclock_after (when_at s 1) now ≡ false = ground arith in
            let at_top = v.good.links.indexed 1 (omega arith) queued in
            let right : (ltb 1 1 || ltb s.used 1 || not (client_at s 1 == client_at s 1)) ≡ false =
              ground arith in
            let top : Within (client_at s 1) ds =
              covers (client_at s 1) (when_at s 1) (top_lem v queued).0 due in
            rw (more, at_top, right)
              (after_pop fuel s ds (pop s) covers top f due (run_all_covered fuel)
                (pop_lem s v queued))
      ]

  -- `runAll` ends, also where the callbacks schedule further events, as long as they schedule nobody
  -- for a time that has come and keep the scheduler valid: fuel for one call of each scheduled client
  -- is enough. It returns 0; it has called only clients whose time had come, leaves none of those in
  -- the schedule, and leaves the scheduler valid. No assertion fails.
  pub run_all-RunsDue :
      (fuel : ℕ) (s : Sked)
      → IsValid base s
      → s.used < fuel
      → RunsDue base now (run_all callback fuel s now)
  run_all-RunsDue fuel s v f =
      let (covers, all) = queued_clients-Covers now s v in
      run_all_covered fuel s (queued_clients s s.used) v covers (omega (arith, f, all))
