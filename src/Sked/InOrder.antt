-- ===== src/Sked/InOrder.antt =====
-- `runAll` of Sked.cc: clients are called in the order of their times.
use c10kcode.Common.{
  ℕ, zero, suc, ◌≤◌, ◌<◌, ◌≡◌, sym, ◌∙◌, none, some, length, List, [], ◌∷◌, arith, ltb, ◌==◌, ◌||◌,
  not, if◌then◌else◌, false, Bool-cases, if_cases, inl, inr, eq→==, ltb→le,
}
use c10kcode.Eclock.{eclock_after}
use c10kcode.Eclock.Window.{InWindow, age, eclock_after-age}
use c10kcode.Sked.{
  Sked, SkedRecord, Outcome, returned, aborted, unfinished, client_at, when_at, pop, run_all, empty,
  asserted, ◌>>=◌,
}
use c10kcode.Sked.Links.{scheduled}
use c10kcode.Sked.Sift.{key, in_window}
use c10kcode.Sked.Valid.{IsValid, top_lem}
use c10kcode.Sked.Pop.{Drops, pop_lem}
use c10kcode.Sked.Covered.{
  Within, Covers, without, length-without-lt, queued_clients, queued_clients-Covers,
}
use c10kcode.Sked.Run.{Behaves, others_due}

-- The times of the records rise from `low` on, by the ages from `base`.
abbrev pub Ascending : ℕ → ℕ → List SkedRecord → Type 0
Ascending base low [] = Unit {0}
Ascending base low (r ∷ rs) = (low ≤ age base r.when) × Ascending base (age base r.when) rs

abbrev pub CalledFrom : ℕ → ℕ → Outcome (ℕ × List SkedRecord × Sked) → Type 0
CalledFrom base low (returned (e, called, t)) = Ascending base low called
CalledFrom base low aborted = ⊥
CalledFrom base low unfinished = ⊥

-- No client whose time has come is scheduled before `low`.
abbrev NoneBefore : ℕ → ℕ → ℕ → Sked → Type 0
NoneBefore base now low s =
    (c w : ℕ) → scheduled s c ≡ some w → eclock_after w now ≡ false → low ≤ age base w

module _ {base now : ℕ} (callback : ℕ → ℕ → Sked → Sked) (b : Behaves base now callback)
    (win : InWindow base now) where
  top-le : (s : Sked) → IsValid base s → 0 < s.used → NoneBefore base now (key base s 1) s
  top-le s v queued c w e due =
      let top_win = in_window s 1 v.good (omega arith) queued in
      let cmp = eclock_after-age (when_at s 1) w v.good.start top_win (v.good.window c w tt e) in
      ltb→le _ _ (sym cmp ∙ (top_lem v queued).1 c w e)

  called_first :
      (p : SkedRecord) (low : ℕ) (o : Outcome (ℕ × List SkedRecord × Sked))
      → low ≤ age base p.when
      → CalledFrom base (age base p.when) o
      → CalledFrom base low (o >>= λ r. returned (r.0, p ∷ r.1, r.2))
  called_first p low aborted h r = r
  called_first p low unfinished h r = r
  called_first p low (returned (e, called, t)) h r = (h, r)

  -- What is due behind the call of the top was scheduled before it.
  still_before :
      (s t : Sked) (low : ℕ)
      → NoneBefore base now low s
      → IsValid base t
      → ((d : ℕ) → scheduled t d ≡ (if d == client_at s 1 then none else scheduled s d))
      → NoneBefore base now low (callback (client_at s 1) now t)
  still_before s t low h v gone d w e due =
      let at : scheduled t d ≡ some w = b.no_new_due (client_at s 1) t v d w e due in
      elim (if_cases (d == client_at s 1) none (scheduled s d) (sym (gone d) ∙ at)) [
        | inl lost ↦ absurd (ground arith)
        | inr kept ↦ h d w kept due
      ]

  after_pop :
      (fuel low : ℕ) (s : Sked) (ds : List ℕ) (o : Outcome Sked)
      → Covers now ds s
      → Within (client_at s 1) ds
      → length ds < suc fuel
      → low ≤ key base s 1
      → NoneBefore base now (key base s 1) s
      → ((u : Sked) (es : List ℕ)
          → IsValid base u
          → Covers now es u
          → length es < fuel
          → NoneBefore base now (key base s 1) u
          → CalledFrom base (key base s 1) (run_all callback fuel u now))
      → Drops base s (client_at s 1) o
      → CalledFrom base low (
          o >>= λ t. asserted (t.sked_index (client_at s 1) == 0) (
            run_all callback fuel (callback (client_at s 1) now t) now >>= λ r.
            returned (r.0, s.records 1 ∷ r.1, r.2)))
  after_pop fuel low s ds aborted covers top f h later rest d = d
  after_pop fuel low s ds unfinished covers top f h later rest d = d
  after_pop fuel low s ds (returned t) covers top f h later rest (v, fewer, gone) =
      let idle : t.sked_index (client_at s 1) ≡ 0 = ground (arith, gone (client_at s 1)) in
      rw (eq→== _ _ idle) (
        called_first (s.records 1) low _ h (
          rest _ (without (client_at s 1) ds) (b.valid (client_at s 1) t v)
            (others_due callback b win s t ds covers v gone)
            (omega (arith, f, length-without-lt (client_at s 1) ds top))
            (still_before s t (key base s 1) later v gone)))

  run_all_from :
      (fuel low : ℕ) (s : Sked) (ds : List ℕ)
      → IsValid base s
      → Covers now ds s
      → length ds < fuel
      → NoneBefore base now low s
      → CalledFrom base low (run_all callback fuel s now)
  unfolding run_all
  run_all_from zero low s ds v covers f h = absurd (omega arith)
  run_all_from (suc fuel) low s ds v covers f h =
      elim (Bool-cases (empty s || eclock_after (when_at s 1) now)) [
        | inl done ↦ rw done tt
        | inr more ↦
            let queued : 0 < s.used = ground arith in
            let due : eclock_after (when_at s 1) now ≡ false = ground arith in
            let at_top = v.good.links.indexed 1 (omega arith) queued in
            let right : (ltb 1 1 || ltb s.used 1 || not (client_at s 1 == client_at s 1)) ≡ false =
              ground arith in
            let scheduled_top = (top_lem v queued).0 in
            rw (more, at_top, right)
              (after_pop fuel low s ds (pop s) covers
                (covers (client_at s 1) (when_at s 1) scheduled_top due) f
                (h (client_at s 1) (when_at s 1) scheduled_top due) (top-le s v queued)
                (λ u es v' covers' f'. run_all_from fuel (key base s 1) u es v' covers' f')
                (pop_lem s v queued))
      ]

  -- `runAll` returns and calls the clients in the order of their times, also where the callbacks
  -- cancel events or schedule further ones, as long as they schedule nobody for a time that has come
  -- and keep the scheduler valid.
  pub run_all_in_order :
      (fuel : ℕ) (s : Sked)
      → IsValid base s
      → s.used < fuel
      → CalledFrom base 0 (run_all callback fuel s now)
  run_all_in_order fuel s v f =
      let (covers, all) = queued_clients-Covers now s v in
      run_all_from fuel 0 s (queued_clients s s.used) v covers (omega (arith, f, all))
        (λ c w e due. omega arith)
