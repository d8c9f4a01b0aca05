-- ===== src/Pipe/Closing.antt =====
-- dkftpbench-0.45/ftp_client_pipe.cc: `shutdown` and the descriptors.
use c10kcode.Common.{
  ℕ, ◌≡◌, ◌≢◌, ◌⊎◌, ◌↔◌, refl, true, false, Option, none, some, List, [], ◌∷◌, ◌++◌, if◌then◌else◌,
  Bool, inl, inr, sym, subst,
}
use mathlib.Core.Bool.{true≢false}
use c10kcode.CText.{ℤ, pos, negsuc, int_eq}
use c10kcode.Pipe.{Pipe, Effect, closed, removed, idle, Os, shutdown}

-- The descriptor's close succeeds, where there is a descriptor.
abbrev pub Closes : Os → Option ℕ → Type 0
Closes os none = Unit {0}
Closes os (some fd) = os.close_ok fd ≡ true

-- The end of a descriptor, the last first: it is removed from the poller, then closed.
abbrev pub ending : Option ℕ → List Effect
ending none = []
ending (some fd) = closed fd ∷ removed fd ∷ []

-- What `shutdown` comes to: the code and the pipe.
abbrev pub HasShut : Os → Os → Pipe → ℤ × Pipe → Type 0
HasShut os os' p (code, q) =
    (q.cfd ≡ none)
    × (q.dfd ≡ none)
    × (q.log ≡ ending p.dfd ++ (ending p.cfd ++ p.log))
    × (shutdown os' q ≡ (pos 0, q))
    × ((p.cfd ≢ none) ⊎ (p.dfd ≢ none) → (q.timer ≡ none) × (q.state ≡ idle))
    × ((code ≡ pos 0) ↔ (Closes os p.cfd × Closes os p.dfd))

abbrev IsFailure : ℤ → Type 0
IsFailure (pos n) = ⊥
IsFailure (negsuc n) = Unit {0}

-- The codes of one call and of two.
abbrev code_of : Bool → ℤ
code_of b = if b then pos 0 else negsuc 0

one_code : (b : Bool) → (code_of b ≡ pos 0) ↔ (b ≡ true)
one_code true = (λ h. refl, λ h. refl)
one_code false = (λ h. absurd (subst IsFailure h tt), λ h. absurd (true≢false (sym h)))

two_codes :
    (b c : Bool)
    → ((if int_eq (code_of b) (pos 0) then code_of c else code_of b) ≡ pos 0)
      ↔ ((b ≡ true) × (c ≡ true))
two_codes true c = (λ h. (refl, (one_code c).0 h), λ h. (one_code c).1 h.1)
two_codes false c = (λ h. absurd (subst IsFailure h tt), λ h. absurd (true≢false (sym h.0)))

HasShut-at :
    (os os' : Os) (p : Pipe) (c d : Option ℕ)
    → HasShut os os' (record p { cfd = c; dfd = d }) (shutdown os (record p { cfd = c; dfd = d }))
unfolding shutdown
HasShut-at os os' p none none = (
  refl,
  refl,
  refl,
  refl,
  λ h. absurd (elim h [ inl n ↦ n refl | inr n ↦ n refl ]),
  (λ h. (tt, tt), λ h. refl),
)
HasShut-at os os' p none (some d) = (
  refl,
  refl,
  refl,
  refl,
  λ h. (refl, refl),
  (λ h. (tt, (one_code (os.close_ok d)).0 h), λ h. (one_code (os.close_ok d)).1 h.1),
)
HasShut-at os os' p (some c) none = (
  refl,
  refl,
  refl,
  refl,
  λ h. (refl, refl),
  (
    λ h. (((two_codes (os.close_ok c) true).0 h).0, tt),
    λ h. (two_codes (os.close_ok c) true).1 (h.0, refl),
  ),
)
HasShut-at os os' p (some c) (some d) =
    (refl, refl, refl, refl, λ h. (refl, refl), two_codes (os.close_ok c) (os.close_ok d))

-- `shutdown` closes each descriptor that there is once, behind its removal from the poller, and
-- leaves none; another call then does nothing. Where there was one, the timeout is cancelled and the
-- pipe is idle. It returns 0 exactly where every close succeeds.
pub shutdown_lem : (os os' : Os) (p : Pipe) → HasShut os os' p (shutdown os p)
shutdown_lem os os' p = HasShut-at os os' p p.cfd p.dfd
