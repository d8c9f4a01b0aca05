-- ===== src/Sked/Covered.antt =====
-- `runAll` of Sked.cc: a list of the clients whose time has come, which gets shorter from call to call.
use c10kcode.Common.{
  ℕ, zero, suc, ◌≤◌, ◌<◌, ◌≡◌, ◌≢◌, refl, sym, ◌∙◌, ap, subst, ◌⊎◌, inl, inr, some, List, [], ◌∷◌,
  arith, ◌==◌, if◌then◌else◌, false, Bool-cases, if_both, ==→eq, ==→ne, length,
}
use c10kcode.Eclock.{eclock_after}
use c10kcode.Sked.{Sked, client_at}
use c10kcode.Sked.Links.{scheduled}
use c10kcode.Sked.Valid.{IsValid}

abbrev pub Within : ℕ → List ℕ → Type 0
Within c [] = ⊥
Within c (d ∷ ds) = (c ≡ d) ⊎ Within c ds

abbrev pub without : ℕ → List ℕ → List ℕ
without c [] = []
without c (d ∷ ds) = if d == c then without c ds else d ∷ without c ds

length-without : (c : ℕ) (ds : List ℕ) → length (without c ds) ≤ length ds
length-without c [] = omega arith
length-without c (d ∷ ds) =
    if_both (λ l. length l ≤ suc (length ds)) (d == c) (without c ds) (d ∷ without c ds)
      (λ e. omega (arith, length-without c ds)) (λ e. omega (arith, length-without c ds))

-- Taking out a client of the list makes it shorter.
pub length-without-lt : (c : ℕ) (ds : List ℕ) → Within c ds → length (without c ds) < length ds
length-without-lt c [] h = absurd h
length-without-lt c (d ∷ ds) h =
    if_both (λ l. length l < suc (length ds)) (d == c) (without c ds) (d ∷ without c ds)
      (λ e. omega (arith, length-without c ds))
      (λ e. elim h [
        | inl same ↦ absurd (==→ne d c e (sym same))
        | inr rest ↦ omega (arith, length-without-lt c ds rest)
      ])

-- The other clients stay.
pub without-Within : (c e : ℕ) (ds : List ℕ) → e ≢ c → Within e ds → Within e (without c ds)
without-Within c e [] n h = h
without-Within c e (d ∷ ds) n h =
    if_both (Within e) (d == c) (without c ds) (d ∷ without c ds)
      (λ k. elim h [
        | inl same ↦ absurd (n (same ∙ ==→eq d c k))
        | inr rest ↦ without-Within c e ds n rest
      ])
      (λ k. elim h [ inl same ↦ inl same | inr rest ↦ inr (without-Within c e ds n rest) ])

-- The list holds every client whose time has come.
abbrev pub Covers : ℕ → List ℕ → Sked → Type 0
Covers now ds s = (c w : ℕ) → scheduled s c ≡ some w → eclock_after w now ≡ false → Within c ds

abbrev pub queued_clients : Sked → ℕ → List ℕ
queued_clients s zero = []
queued_clients s (suc n) = client_at s (suc n) ∷ queued_clients s n

length-queued_clients : (s : Sked) (n : ℕ) → length (queued_clients s n) ≡ n
length-queued_clients s zero = refl
length-queued_clients s (suc n) = omega (arith, length-queued_clients s n)

at_place : (s : Sked) (n i : ℕ) → 1 ≤ i → i ≤ n → Within (client_at s i) (queued_clients s n)
at_place s zero i l h = absurd (omega (arith, l, h))
at_place s (suc n) i l h = elim (Bool-cases (i == suc n)) [
  | inl last ↦ inl (ap (client_at s) (==→eq i (suc n) last))
  | inr before ↦ inr (at_place s n i l (omega (arith, h, ==→ne i (suc n) before)))
]

-- All the clients that are scheduled are such a list, of `used` clients.
pub queued_clients-Covers :
    {base : ℕ} (now : ℕ) (s : Sked)
    → IsValid base s
    → Covers now (queued_clients s s.used) s × (length (queued_clients s s.used) ≡ s.used)
queued_clients-Covers now s v = (
  λ c w e due.
      let nz : s.sked_index c ≢ 0 = ground arith in
      let i1 = v.good.links.from c tt nz in
      let i2 = v.good.links.to c tt nz in
      subst (λ d. Within d (queued_clients s s.used)) (v.good.links.back c tt nz)
        (at_place s s.used (s.sked_index c) i1 i2),
  length-queued_clients s s.used,
)
