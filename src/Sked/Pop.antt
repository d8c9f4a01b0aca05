-- ===== src/Sked/Pop.antt =====
-- `pop` of Sked.cc.
use c10kcode.Common.{
  ℕ, ◌+◌, ◌-◌, ◌<◌, ◌≡◌, refl, sym, ◌∙◌, none, some, arith, ◌==◌, if◌then◌else◌, if_cases, write,
  ltb, Bool-cases, inl, inr, eq→==, ne→==, ltb→le, ltb→lt,
}
use c10kcode.Eclock.Window.{InWindow}
use c10kcode.Sked.{Sked, Outcome, returned, client_at, replace_top, pop}
use c10kcode.Sked.Links.{scheduled, Linked}
use c10kcode.Sked.Sift.{Sifted}
use c10kcode.Sked.Replace.{replace_top-Sifted}
use c10kcode.Sked.Valid.{All, IsValid, Sifted-IsValid}

-- `s` with its top told that it is no longer scheduled.
abbrev told : Sked → Sked
told s = record s { sked_index = write s.sked_index (client_at s 1) 0; used = s.used - 1 }

module _ {base : ℕ} (s : Sked) (v : IsValid base s) (queued : 0 < s.used) where
  told-scheduled :
      (d : ℕ) → scheduled (told s) d ≡ (if d == client_at s 1 then none else scheduled s d)
  told-scheduled d = ground arith

  told-Linked : (n : ℕ) → n ≡ s.used → Linked All 2 n (told s)
  told-Linked n e = record {
    held = λ i a b. tt;
    indexed = λ i a b. ground (arith, v.good.links.indexed i, v.good.links.indexed 1);
    from = λ d h nz. ground (arith, v.good.links.from d tt, v.good.links.back d tt);
    to = λ d h nz. ground (arith, v.good.links.to d tt);
    back = λ d h nz. ground (arith, v.good.links.back d tt);
  }

  told-window : (d u : ℕ) → All d → scheduled (told s) d ≡ some u → InWindow base u
  told-window d u h e =
      elim (if_cases (d == client_at s 1) none (scheduled s d) (sym (told-scheduled d) ∙ e)) [
        | inl gone ↦ absurd (ground arith)
        | inr old ↦ v.good.window d u tt old
      ]

  told-Sifted : 1 < s.used → Sifted All base (s.used - 1) (told s) (replace_top (told s))
  told-Sifted two =
      replace_top-Sifted (told s) (omega arith) v.good.start told-window
        (told-Linked (s.used - 1 + 1) (omega arith)) λ j lj hj ne. v.heap j lj (omega arith)

  told_last : s.used ≡ 1 → Sifted All base 0 (told s) (told s)
  told_last one = record {
    good = record {
      links = record {
        held = λ i a b. tt;
        indexed = λ i a b. absurd (omega arith);
        from = λ d h nz. ground (arith, v.good.links.from d tt);
        to = λ d h nz.
            ground (arith, v.good.links.to d tt, v.good.links.from d tt, v.good.links.back d tt);
        back = λ d h nz. ground (arith, v.good.links.back d tt);
      };
      window = told-window;
      start = v.good.start;
    };
    same = record { used = refl; allocated = refl; scheduled = λ c _. refl };
    heap = λ j a b. absurd (omega arith);
  }

-- What taking client `c` out of the schedule comes to: a valid scheduler, and every other client
-- scheduled as before.
abbrev pub Drops : ℕ → Sked → ℕ → Outcome Sked → Type 0
Drops base s c (returned t) =
    IsValid base t
    × (t.used + 1 ≡ s.used)
    × ((d : ℕ) → scheduled t d ≡ (if d == c then none else scheduled s d))
Drops base s c _ = ⊥

-- `pop` fails no assertion, takes the top and nothing else out of the schedule, and leaves a valid
-- scheduler.
pub pop_lem :
    {base : ℕ} (s : Sked) → IsValid base s → 0 < s.used → Drops base s (client_at s 1) (pop s)
unfolding pop
pop_lem {base} s v queued = elim (Bool-cases (ltb 0 (s.used - 1))) [
  | inl more ↦
      let r = told-Sifted s v queued (omega (arith, ltb→lt _ _ more)) in
      rw
        (
          ne→== s.used 0 (omega arith),
          eq→== _ _ (v.good.links.indexed 1 (omega arith) queued),
          more,
          eq→== _ _ (r.good.links.indexed 1 (omega arith) (omega (arith, ltb→lt _ _ more))),
        )
        (
          Sifted-IsValid r refl (omega (arith, v.room)),
          omega (arith, r.same.used),
          λ d. r.same.scheduled d tt ∙ told-scheduled s v queued d,
        )
  | inr last ↦
      let one : s.used ≡ 1 = omega (arith, ltb→le _ _ last) in
      rw
        (
          ne→== s.used 0 (omega arith),
          eq→== _ _ (v.good.links.indexed 1 (omega arith) queued),
          last,
        )
        (
          Sifted-IsValid (told_last s v queued one) (omega arith) (omega (arith, v.room)),
          omega arith,
          told-scheduled s v queued,
        )
]
