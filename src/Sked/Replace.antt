-- ===== src/Sked/Replace.antt =====
-- `remove` and `pop` in Sked.cc: taking a record to the top, and putting the last one in its place.
use c10kcode.Common.{
  ℕ, zero, suc, ◌+◌, ◌/◌, ◌≤◌, ◌<◌, ◌≡◌, ◌≢◌, refl, sym, subst, ◌∙◌, ap, some, arith, ltb,
  Bool-cases, inl, inr, ltb→lt, ltb→le,
}
use c10kcode.Eclock.{word}
use c10kcode.Eclock.Window.{InWindow}
use c10kcode.Sked.{Sked, client_at, store_at, swap, float_loop, sift_down, replace_top}
use c10kcode.Sked.Order.{Above, DownTo, Around, Around-swapped}
use c10kcode.Sked.Links.{scheduled, Linked, Same, Same-trans, swap-Same}
use c10kcode.Sked.Sift.{key, key-swap, IsGood, swap-IsGood, Sifted, sift_down_loop-Sifted}

-- The order below the children of the top.
abbrev pub Below : (ℕ → ℕ) → ℕ → Type 0
Below k high = (j : ℕ) → 2 ≤ j → j ≤ high → j / 2 ≢ 1 → Above k j

-- What taking the record at `i` to the top makes of `s`.
pub record Floated (P : ℕ → Type 0) (base high : ℕ) (s : Sked) (i : ℕ) (t : Sked) : Type 0 where
  pub good : IsGood P base high t
  pub same : Same P s t
  pub below : Below (key base t) high
  pub topped : client_at t 1 ≡ client_at s i

client_at-swap : (s : Sked) (p i : ℕ) → client_at (swap s p i) p ≡ client_at s i
unfolding swap
client_at-swap s p i = ground arith

module _ {P : ℕ → Type 0} {base high : ℕ} where
  pub float_loop-Floated :
      (fuel : ℕ) (s : Sked) (i : ℕ)
      → IsGood P base high s
      → 1 ≤ i
      → i ≤ high
      → i ≤ fuel
      → Around (key base s) high i
      → Floated P base high s i (float_loop fuel s i)
  unfolding float_loop
  float_loop-Floated zero s i g i1 i2 f a = absurd (omega arith)
  float_loop-Floated (suc fuel) s i g i1 i2 f a = elim (Bool-cases (ltb 1 i)) [
    | inr at_top ↦
        let e : i ≡ 1 = omega (arith, ltb→le 1 i at_top) in
        rw at_top (record {
          good = g;
          same = record { used = refl; allocated = refl; scheduled = λ c _. refl };
          below = λ j lj hj ne. a.above j lj hj (omega arith) (omega arith);
          topped = ap (client_at s) (sym e);
        })
    | inl below ↦
        let low : 1 < i = ltb→lt 1 i below in
        let p1 : 1 ≤ i / 2 = omega arith in
        let p2 : i / 2 ≤ high = omega arith in
        let ne : i / 2 ≢ i = omega arith in
        let r =
          float_loop-Floated fuel (swap s (i / 2) i) (i / 2)
            (swap-IsGood s (i / 2) i g p1 p2 i1 i2 ne) p1 p2 (omega arith)
            (subst (λ k. Around k high (i / 2)) (sym (key-swap base s (i / 2) i))
              (Around-swapped (key base s) high i low i2 a)) in
        rw below (record {
          good = r.good;
          same = Same-trans (swap-Same s (i / 2) i g.links p1 p2 i1 i2 ne) r.same;
          below = r.below;
          topped = r.topped ∙ client_at-swap s (i / 2) i;
        })
  ]

-- The last record, which is to be the new top, moved there.
module _ {P : ℕ → Type 0} (s : Sked) (m n : ℕ) (last : m ≡ suc n) (n1 : 1 ≤ n)
    (l : Linked P 2 m s) where
  last_to_top-Linked : Linked P 1 n (store_at s 1 (s.records m))
  last_to_top-Linked = record {
    held = λ j a b. ground (arith, l.held m, l.held j);
    indexed = λ j a b. ground (arith, l.indexed m, l.indexed j);
    from = λ c h nz. ground (arith, l.from c h);
    to = λ c h nz. ground (arith, l.to c h, l.back c h);
    back = λ c h nz. ground (arith, l.back c h, l.from c h, l.to c h, l.indexed m);
  }

  last_to_top-Same : Same P s (store_at s 1 (s.records m))
  last_to_top-Same = record {
    used = refl;
    allocated = refl;
    scheduled = λ c h. ground (arith, l.indexed m, l.back c h, l.from c h);
  }

  last_to_top-DownTo :
      (base : ℕ) → Below (key base s) m → DownTo (key base (store_at s 1 (s.records m))) n 1
  last_to_top-DownTo base b = record {
    above = λ j lj hj ne. ground (arith, b j);
    bridge = λ j l2 hj e. absurd (omega arith);
  }

-- `replace_top` puts a heap in order again whose top is to go, without losing another record.
pub replace_top-Sifted :
    {P : ℕ → Type 0} {base : ℕ} (s : Sked)
    → 1 ≤ s.used
    → base < word
    → ((c w : ℕ) → P c → scheduled s c ≡ some w → InWindow base w)
    → Linked P 2 (s.used + 1) s
    → Below (key base s) (s.used + 1)
    → Sifted P base s.used s (replace_top s)
unfolding replace_top sift_down
replace_top-Sifted {P} {base} s n1 start window l b = elim (Bool-cases (ltb 1 s.used)) [
  | inl two ↦ rw two (record { good = r.good; same = Same-trans moved r.same; heap = r.heap })
  | inr one ↦ rw one (record {
    good = good;
    same = moved;
    heap = λ j lj hj. absurd (omega (arith, ltb→le 1 s.used one));
  })
]
  where
    m : ℕ
    m = s.used + 1

    e : m ≡ suc s.used
    e = omega arith

    t : Sked
    t = store_at s 1 (s.records m)

    moved : Same P s t
    moved = last_to_top-Same s m s.used e n1 l

    good : IsGood P base s.used t
    good = record {
      links = last_to_top-Linked s m s.used e n1 l;
      window = λ c w h p. window c w h (sym (moved.scheduled c h) ∙ p);
      start = start;
    }

    r : Sifted P base s.used t (sift_down t 1)
    r =
        sift_down_loop-Sifted s.used t 1 good refl (omega arith) n1 (omega arith)
          (last_to_top-DownTo s m s.used e n1 l base b)
