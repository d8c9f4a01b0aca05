-- ===== src/Sked/Del.antt =====
-- `delClient` of Sked.cc, and `remove` under it.
use c10kcode.Common.{
  ℕ, ◌+◌, ◌-◌, ◌≤◌, ◌<◌, ◌≡◌, ◌≢◌, refl, sym, subst, ◌∙◌, ap, none, arith, ◌==◌, if◌then◌else◌,
  true, write, ltb, leb, Bool-cases, inl, inr, ==→ne, lt→ltb, ltb→le, ltb→lt,
}
use c10kcode.Sked.{Sked, Outcome, returned, client_at, replace_top, float_loop, remove, del_client}
use c10kcode.Sked.Order.{IsHeap}
use c10kcode.Sked.Links.{scheduled, Linked}
use c10kcode.Sked.Sift.{key, IsGood, Sifted}
use c10kcode.Sked.Replace.{Floated, float_loop-Floated, replace_top-Sifted}
use c10kcode.Sked.Valid.{All, IsValid}

-- Every client but `c`
abbrev But : ℕ → ℕ → Type 0
But c d = d ≢ c

-- `skc->skedIndex = 0`
abbrev unscheduled : Sked → ℕ → Sked
unscheduled t c = record t { sked_index = write t.sked_index c 0 }

-- A scheduler that is right but for the index of a client that is gone is right once that is 0.
unscheduled-Sifted :
    {base n : ℕ} {s t : Sked} (c : ℕ)
    → Sifted (But c) base n s t
    → (IsGood All base n (unscheduled t c))
      × (IsHeap (key base (unscheduled t c)) n)
      × ((d : ℕ) → scheduled (unscheduled t c) d ≡ (if d == c then none else scheduled s d))
unscheduled-Sifted {base} {n} {s} {t} c r = (
  record {
    links = record {
      held = λ i a b. tt;
      indexed = λ i a b. ground (arith, r.good.links.indexed i a b, r.good.links.held i a b);
      from = λ d h nz. ground (arith, r.good.links.from d);
      to = λ d h nz. ground (arith, r.good.links.to d);
      back = λ d h nz. ground (arith, r.good.links.back d);
    };
    window = λ d u h e. elim (Bool-cases (d == c)) [
      | inl gone ↦ absurd (ground arith)
      | inr other ↦ r.good.window d u (==→ne _ _ other) (ground arith)
    ];
    start = r.good.start;
  },
  r.heap,
  now,
)
  where
    now : (d : ℕ) → scheduled (unscheduled t c) d ≡ (if d == c then none else scheduled s d)
    now d = ground (arith, r.same.scheduled d)

unscheduled-IsValid :
    {base n : ℕ} {s t : Sked} (c : ℕ)
    → Sifted (But c) base n s t
    → s.used ≡ n
    → n < s.allocated
    → IsValid base (unscheduled t c)
unscheduled-IsValid {base} {n} {s} {t} c r e room =
    let (good, heap, _) = unscheduled-Sifted c r in
    let same : n ≡ t.used = sym (r.same.used ∙ e) in
    record {
      good = subst (λ k. IsGood All base k (unscheduled t c)) same good;
      heap = subst (IsHeap (key base t)) same heap;
      room = omega (arith, r.same.allocated);
    }

module _ {base : ℕ} (s : Sked) (c : ℕ) (v : IsValid base s) (queued : s.sked_index c ≢ 0) where
  -- The client's record taken to the top, and the last record no longer counted.
  abbrev floated : Sked
  floated = float_loop (s.sked_index c) s (s.sked_index c)

  abbrev shortened : Sked
  shortened = record floated { used = s.used - 1 }

  floated_lem : Floated All base s.used s (s.sked_index c) floated
  floated_lem =
      float_loop-Floated (s.sked_index c) s (s.sked_index c) v.good (v.good.links.from c tt queued)
        (v.good.links.to c tt queued) (omega arith)
        (record {
          above = λ j lj hj ne ne2. v.heap j lj hj;
          bridge = λ j l2 hj e. ground (arith, v.heap j, v.heap (s.sked_index c));
        })

  client_at-top : client_at floated 1 ≡ c
  client_at-top = floated_lem.topped ∙ v.good.links.back c tt queued

  shortened-Linked : (n : ℕ) → n ≡ s.used → Linked (But c) 2 n shortened
  shortened-Linked n e =
      let l = floated_lem.good.links in
      record {
        held = λ i a b. ground (arith, l.indexed i, l.indexed 1, client_at-top);
        indexed = λ i a b. ground (arith, l.indexed i);
        from = λ d h nz. ground (arith, l.from d tt, l.back d tt, client_at-top);
        to = λ d h nz. ground (arith, l.to d tt);
        back = λ d h nz. ground (arith, l.back d tt);
      }

  shortened-Sifted : 1 < s.used → Sifted (But c) base (s.used - 1) shortened (replace_top shortened)
  shortened-Sifted two =
      replace_top-Sifted shortened (omega arith) v.good.start
        (λ d u h e. floated_lem.good.window d u tt e)
        (shortened-Linked (s.used - 1 + 1) (omega arith))
        λ j lj hj ne. floated_lem.below j lj (omega arith) ne

  -- Where the client is the only one.
  only-Sifted :
      s.used ≡ 1
      → Sifted (But c) base 0 (record s { used = s.used - 1 }) (record s { used = s.used - 1 })
  only-Sifted one = record {
    good = record {
      links = record {
        held = λ i a b. absurd (omega arith);
        indexed = λ i a b. absurd (omega arith);
        from = λ d h nz. v.good.links.from d tt nz;
        to = λ d h nz. ground (
          arith,
          v.good.links.from c tt queued,
          v.good.links.to c tt queued,
          v.good.links.back c tt queued,
          v.good.links.from d tt nz,
          v.good.links.to d tt nz,
          v.good.links.back d tt nz,
        );
        back = λ d h nz. v.good.links.back d tt nz;
      };
      window = λ d u h e. v.good.window d u tt e;
      start = v.good.start;
    };
    same = record { used = refl; allocated = refl; scheduled = λ d _. refl };
    heap = λ j a b. absurd (omega arith);
  }

-- What deleting client `c` comes to: success, a valid scheduler, and every other client scheduled
-- as before.
abbrev pub Deletes : ℕ → Sked → ℕ → Outcome (ℕ × Sked) → Type 0
Deletes base s c (returned (e, t)) =
    (e ≡ 0) × IsValid base t × ((d : ℕ) → scheduled t d ≡ (if d == c then none else scheduled s d))
Deletes base s c _ = ⊥

-- Deleting a client fails no assertion and returns 0, whether it is scheduled or not; it is then
-- not scheduled, every other client is as before, and the scheduler is valid.
pub del_client_lem :
    {base : ℕ} (s : Sked) (c : ℕ) → IsValid base s → Deletes base s c (del_client s c)
unfolding del_client remove
del_client_lem {base} s c v = elim (Bool-cases (s.sked_index c == 0)) [
  | inl idle ↦ rw idle (refl, v, λ d. ground arith)
  | inr queued ↦
      let nz = ==→ne _ _ queued in
      let i1 : 1 ≤ s.sked_index c = v.good.links.from c tt nz in
      let i2 : s.sked_index c ≤ s.used = v.good.links.to c tt nz in
      let inside : leb (s.sked_index c) s.used ≡ true = ground arith in
      elim (Bool-cases (ltb 1 s.used)) [
        | inl two ↦
            let lt = ltb→lt _ _ two in
            let r = shortened-Sifted s c v nz lt in
            rw (queued, lt→ltb 0 s.used (omega arith), inside, two)
              (
                refl,
                unscheduled-IsValid c r refl
                    (omega (arith, v.room, (floated_lem s c v nz).same.allocated)),
                λ d.
                    (unscheduled-Sifted c r).2 d
                    ∙ ap (λ o. if d == c then none else o)
                        ((floated_lem s c v nz).same.scheduled d tt),
              )
        | inr last ↦
            let one : s.used ≡ 1 = omega (arith, ltb→le _ _ last) in
            let r = only-Sifted s c v nz one in
            rw (queued, lt→ltb 0 s.used (omega arith), inside, last)
              (
                refl,
                unscheduled-IsValid c r (omega arith) (omega (arith, v.room)),
                (unscheduled-Sifted c r).2,
              )
      ]
]
