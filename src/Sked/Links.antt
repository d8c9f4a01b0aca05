-- ===== src/Sked/Links.antt =====
-- The links between the clients of Sked.cc and their records: each client's index leads to its
-- record, and each record's client back to it. The scheduler is then a map from clients to times.
use c10kcode.Common.{
  ℕ, ◌≤◌, ◌≡◌, ◌≢◌, refl, sym, ◌∙◌, ap, Option, none, some, arith, ◌==◌, if◌then◌else◌,
}
use c10kcode.Sked.{Sked, client_at, when_at, swap}

-- The time for which a client is scheduled.
abbrev pub scheduled : Sked → ℕ → Option ℕ
scheduled s c = if s.sked_index c == 0 then none else some (when_at s (s.sked_index c))

-- The records from `low` to `high`, and the clients in `P`, are linked.
pub record Linked (P : ℕ → Type 0) (low high : ℕ) (s : Sked) : Type 0 where
  pub held : (i : ℕ) → low ≤ i → i ≤ high → P (client_at s i)
  pub indexed : (i : ℕ) → low ≤ i → i ≤ high → s.sked_index (client_at s i) ≡ i
  pub from : (c : ℕ) → P c → s.sked_index c ≢ 0 → low ≤ s.sked_index c
  pub to : (c : ℕ) → P c → s.sked_index c ≢ 0 → s.sked_index c ≤ high
  pub back : (c : ℕ) → P c → s.sked_index c ≢ 0 → client_at s (s.sked_index c) ≡ c

-- `t` has the clients of `P` scheduled as `s` has.
pub record Same (P : ℕ → Type 0) (s t : Sked) : Type 0 where
  pub used : t.used ≡ s.used
  pub allocated : t.allocated ≡ s.allocated
  pub scheduled : (c : ℕ) → P c → scheduled t c ≡ scheduled s c

pub Same-trans : {P : ℕ → Type 0} {s t u : Sked} → Same P s t → Same P t u → Same P s u
Same-trans a b = record {
  used = b.used ∙ a.used;
  allocated = b.allocated ∙ a.allocated;
  scheduled = λ c h. b.scheduled c h ∙ a.scheduled c h;
}

module _ {P : ℕ → Type 0} {high : ℕ} (s : Sked) (p i : ℕ) (l : Linked P 1 high s) (p1 : 1 ≤ p)
    (p2 : p ≤ high) (i1 : 1 ≤ i) (i2 : i ≤ high) (ne : p ≢ i) where
  apart : client_at s p ≢ client_at s i
  apart e = ne (sym (l.indexed p p1 p2) ∙ ap s.sked_index e ∙ l.indexed i i1 i2)

  pub swap-Linked : Linked P 1 high (swap s p i)
  unfolding swap
  swap-Linked = record {
    held = λ j a b. ground (arith, l.held j a b, l.held p p1 p2, l.held i i1 i2);
    indexed = λ j a b. ground (arith, l.indexed j a b, l.indexed p p1 p2, l.indexed i i1 i2, apart);
    from = λ c h nz. ground (arith, l.from c h);
    to = λ c h nz. ground (arith, l.to c h);
    back = λ c h nz. ground (arith, l.back c h, l.indexed p p1 p2, l.indexed i i1 i2, apart);
  }

  pub swap-Same : Same P s (swap s p i)
  unfolding swap
  swap-Same = record {
    used = refl;
    allocated = refl;
    scheduled = λ c h. ground (arith, l.back c h, l.indexed p p1 p2, l.indexed i i1 i2, apart);
  }
