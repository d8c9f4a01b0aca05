-- ===== src/PollerPoll/Valid.antt =====
-- dkftpbench-0.45/Poller_poll.cc: the table of descriptors and the compact array that `poll` gets
-- point at each other.
use c10kcode.Common.{ℕ, ◌≤◌, ◌<◌, ◌≡◌, Option, none, some, ltb, if◌then◌else◌, arith}
use c10kcode.PollerPoll.{PollerPoll, init}

pub record IsValid (p : PollerPoll) : Type 0 where
  pub to_used : (f i : ℕ) → f < p.fd_alloc → p.fd_to_pfd f ≡ some i → i < p.pfds_used
  pub to_fd : (f i : ℕ) → f < p.fd_alloc → p.fd_to_pfd f ≡ some i → (p.pfds i).fd ≡ some f
  pub to_seen : (f i : ℕ) → f < p.fd_alloc → p.fd_to_pfd f ≡ some i → f < p.fd_used
  pub from :
      (i : ℕ)
      → i < p.pfds_used
      → (f : ℕ) × ((p.pfds i).fd ≡ some f) × (f < p.fd_alloc) × (p.fd_to_pfd f ≡ some i)
  pub fds : p.fd_used ≤ p.fd_alloc
  pub slots : p.pfds_used ≤ p.pfds_alloc
  pub some_slots : 0 < p.pfds_alloc

-- The client and the mask of a descriptor, where it is watched.
abbrev pub registered : PollerPoll → ℕ → Option (Option ℕ × ℕ)
registered p f =
    if ltb f p.fd_used
    then elim (p.fd_to_pfd f) [ none ↦ none | some i ↦ some (p.clients i, (p.pfds i).events) ]
    else none

-- A poller fresh from `init` is valid and watches nothing, where the memory for the table of
-- descriptors happens to hold -1 only.
pub init_clean :
    (p : PollerPoll)
    → ((f : ℕ) → f < 16 → p.fd_to_pfd f ≡ none)
    → IsValid (init p) × ((f : ℕ) → registered (init p) f ≡ none)
unfolding init
init_clean p clean = (
  record {
    to_used = λ f i h e. ground (arith, clean f);
    to_fd = λ f i h e. ground (arith, clean f);
    to_seen = λ f i h e. ground (arith, clean f);
    from = λ i h. absurd (omega arith);
    fds = omega arith;
    slots = omega arith;
    some_slots = omega arith;
  },
  λ f. ground arith,
)
