-- ===== src/Sked/Add.antt =====
-- `addClient` of Sked.cc, and `push` under it.
use mathlib.Core.Option.{some-injective}
use c10kcode.Common.{
  subst, ℕ, ◌+◌, ◌*◌, ◌<◌, ◌≡◌, refl, sym, ◌∙◌, some, arith, ◌==◌, if◌then◌else◌, true, false, Bool,
  Bool-cases, if_cases, inl, inr, eq→==, ==→eq, ==→ne, enomem,
}
use c10kcode.Eclock.Window.{InWindow}
use c10kcode.Sked.{Sked, Outcome, returned, store_at, push, sift_up, add_client}
use c10kcode.Sked.Order.{UpTo}
use c10kcode.Sked.Links.{scheduled}
use c10kcode.Sked.Sift.{key, IsGood, sift_up_loop-Sifted}
use c10kcode.Sked.Valid.{All, IsValid, Sifted-IsValid}

-- `s` with the record of `c` put behind the others, in an array of `n` elements.
abbrev placed : Sked → ℕ → ℕ → ℕ → Sked
placed s n c w =
    store_at (record s { allocated = n; used = s.used + 1 }) (s.used + 1)
      (record { skc = c; when = w })

module _ {base : ℕ} (s : Sked) (n c w : ℕ) (v : IsValid base s) (idle : s.sked_index c ≡ 0)
    (win : InWindow base w) where
  placed-scheduled :
      (d : ℕ) → scheduled (placed s n c w) d ≡ (if d == c then some w else scheduled s d)
  placed-scheduled d = ground (arith, v.good.links.to d tt)

  placed-IsGood : IsGood All base (s.used + 1) (placed s n c w)
  placed-IsGood = record {
    links = record {
      held = λ i a b. tt;
      indexed = λ i a b. ground (arith, v.good.links.indexed i);
      from = λ d h nz. ground (arith, v.good.links.from d tt);
      to = λ d h nz. ground (arith, v.good.links.to d tt);
      back = λ d h nz. ground (arith, v.good.links.back d tt, v.good.links.to d tt);
    };
    window = λ d u h e.
        elim (if_cases (d == c) (some w) (scheduled s d) (sym (placed-scheduled d) ∙ e)) [
          | inl new ↦ subst (InWindow base) (some-injective w u new) win
          | inr old ↦ v.good.window d u tt old
        ];
    start = v.good.start;
  }

  placed-UpTo : UpTo (key base (placed s n c w)) (s.used + 1) (s.used + 1)
  placed-UpTo = record {
    above = λ j lj hj ne. ground (arith, v.heap j);
    bridge = λ j l2 hj e. absurd (omega arith);
  }

-- What adding client `c` for time `w` comes to: success, a valid scheduler, and the client
-- scheduled beside the others.
abbrev pub Adds : ℕ → Sked → ℕ → ℕ → Outcome (ℕ × Sked) → Type 0
Adds base s c w (returned (e, t)) =
    (e ≡ 0)
    × IsValid base t
    × ((d : ℕ) → scheduled t d ≡ (if d == c then some w else scheduled s d))
Adds base s c w _ = ⊥

module _ {base : ℕ} (ok : Bool) (s : Sked) (c w : ℕ) (v : IsValid base s)
    (idle : s.sked_index c ≡ 0) where
  placed-Adds :
      (n : ℕ)
      → InWindow base w
      → s.used + 1 < n
      → Adds base s c w (returned (0, sift_up (placed s n c w) (s.used + 1)))
  unfolding sift_up
  placed-Adds n win room =
      let r =
        sift_up_loop-Sifted (s.used + 1) (placed s n c w) (s.used + 1)
          (placed-IsGood s n c w v idle win) (omega arith) (omega arith) (omega arith)
          (placed-UpTo s n c w v idle win) in
      (
        refl,
        Sifted-IsValid r refl room,
        λ d. r.same.scheduled d tt ∙ placed-scheduled s n c w v idle win d,
      )

  -- Adding a client that is not scheduled succeeds, unless the array is full and cannot grow; then
  -- the client is scheduled for its time, every other as before, and the scheduler is valid.
  pub add_client_lem :
      InWindow base w
      → (s.used + 1 ≡ s.allocated → ok ≡ true)
      → Adds base s c w (add_client ok s c w)
  unfolding add_client push
  add_client_lem win grows = elim (Bool-cases (s.used + 1 == s.allocated)) [
    | inl full ↦
        rw (eq→== _ _ idle, full, grows (==→eq _ _ full))
          (placed-Adds (s.allocated * 2) win (omega (arith, v.room, ==→eq _ _ full)))
    | inr free ↦
        rw (eq→== _ _ idle, free)
          (placed-Adds s.allocated win (omega (arith, v.room, ==→ne _ _ free)))
  ]

  -- Where the array is full and cannot grow, ENOMEM is returned and nothing has changed.
  pub add_client-enomem :
      s.used + 1 ≡ s.allocated → ok ≡ false → add_client ok s c w ≡ returned (enomem, s)
  unfolding add_client push
  add_client-enomem full fails = rw (eq→== _ _ idle, eq→== _ _ full, fails)
