-- ===== src/Sked/Valid.antt =====
-- The invariant of the scheduler of Sked.h, and what its top is.
use c10kcode.Common.{
  ℕ, zero, suc, ◌/◌, ◌≤◌, ◌<◌, ◌≡◌, ◌≢◌, sym, subst, ◌∙◌, some, arith, true, false, le→ltb,
}
use c10kcode.Eclock.{word, eclock_after}
use c10kcode.Sked.{Sked, client_at, when_at, init}
use c10kcode.Sked.Order.{IsHeap}
use c10kcode.Sked.Links.{scheduled}
use c10kcode.Sked.Sift.{key, IsGood, Sifted, after-key}

-- Every client
abbrev pub All : ℕ → Type 0
All c = Unit {0}

-- Linked both ways, in order, inside the array, and with times in the window from `base` on.
pub record IsValid (base : ℕ) (s : Sked) : Type 0 where
  pub good : IsGood All base s.used s
  pub heap : IsHeap (key base s) s.used
  pub room : s.used < s.allocated

-- A fresh scheduler, whose clients are all unscheduled, is valid.
pub init-IsValid :
    (base : ℕ) (s : Sked)
    → base < word
    → ((c : ℕ) → s.sked_index c ≡ 0)
    → IsValid base (init true s).1
unfolding init
init-IsValid base s start fresh = record {
  good = record {
    links = record {
      held = λ i a b. tt;
      indexed = λ i a b. absurd (omega arith);
      from = λ c h nz. absurd (nz (fresh c));
      to = λ c h nz. absurd (nz (fresh c));
      back = λ c h nz. absurd (nz (fresh c));
    };
    window = λ c w h e. ground (arith, fresh c);
    start = start;
  };
  heap = λ j a b. absurd (omega arith);
  room = omega arith;
}

-- The top of a heap is least.
IsHeap-top : (fuel : ℕ) (k : ℕ → ℕ) (n j : ℕ) → IsHeap k n → j ≤ fuel → 1 ≤ j → j ≤ n → k 1 ≤ k j
IsHeap-top zero k n j h f j1 j2 = absurd (omega arith)
IsHeap-top (suc fuel) k n j h f j1 j2 =
    ground (arith, h j, IsHeap-top fuel k n (j / 2) h (omega arith))

-- `top` is scheduled for its time, and no client is scheduled before it.
pub top_lem :
    {base : ℕ} {s : Sked}
    → IsValid base s
    → 0 < s.used
    → (scheduled s (client_at s 1) ≡ some (when_at s 1))
      × ((c w : ℕ) → scheduled s c ≡ some w → eclock_after (when_at s 1) w ≡ false)
top_lem {base} {s} v some_queued = (ground (arith, v.good.links.indexed 1), first)
  where
    first : (c w : ℕ) → scheduled s c ≡ some w → eclock_after (when_at s 1) w ≡ false
    first c w e =
        let i = s.sked_index c in
        let nz : i ≢ 0 = ground arith in
        let same : w ≡ when_at s i = ground arith in
        let i1 = v.good.links.from c tt nz in
        let i2 = v.good.links.to c tt nz in
        rw same (
          after-key s 1 i v.good (omega arith) some_queued i1 i2
          ∙ le→ltb _ _ (IsHeap-top i (key base s) s.used i v.heap (omega arith) i1 i2))

-- A sift whose heap is all of the scheduler makes it valid.
pub Sifted-IsValid :
    {base n : ℕ} {s t : Sked}
    → Sifted All base n s t
    → s.used ≡ n
    → n < s.allocated
    → IsValid base t
Sifted-IsValid {base} {n} {s} {t} r e room =
    let same : n ≡ t.used = sym (r.same.used ∙ e) in
    record {
      good = subst (λ k. IsGood All base k t) same r.good;
      heap = subst (IsHeap (key base t)) same r.heap;
      room = omega (arith, r.same.allocated);
    }
