-- ===== src/Pipe/Ephemeral/Ports.antt =====
-- dkftpbench-0.45/ftp_client_pipe.cc: the ports that `ephemeral_connect` binds to.
use c10kcode.Common.{
  ℕ, zero, suc, ◌+◌, ◌-◌, ◌%◌, ◌≤◌, ◌<◌, ◌≡◌, ◌≢◌, refl, ◌∙◌, sym, ap, subst, false, Option, none,
  some, arith, eaddrinuse, ne→==, ◌==◌,
}
use c10kcode.FtpProto.{SockAddr}
use c10kcode.Pipe.{Os, Reply, failed, answered}
use c10kcode.Pipe.Ephemeral.{minport, maxport, next_port, bind_loop, ephemeral_connect}

-- The port that is tried after `k` others, the first being `first`: the ports from 1024 to 51023 go
-- round.
abbrev pub nth_port : ℕ → ℕ → ℕ
nth_port first k = minport + (first - minport + k) % 50000

-- The answer ends the search.
abbrev pub IsFinal : Reply → Type 0
IsFinal (answered _) = Unit {0}
IsFinal (failed e) = e ≢ eaddrinuse

-- What is returned where the last bind gave `r`.
abbrev pub outcome : Reply → Reply → Reply
outcome connected (answered _) = connected
outcome connected (failed e) = failed e

abbrev error_of : Reply → Option ℕ
error_of (answered _) = none
error_of (failed e) = some e

pub next_port-in_range : (port : ℕ) → (minport ≤ next_port port) × (next_port port ≤ maxport)
next_port-in_range port = ground arith

next-nth :
    (first k : ℕ)
    → minport ≤ first
    → first ≤ maxport
    → next_port (nth_port first k) ≡ nth_port first (suc k)
next-nth first k lo hi = ground arith

-- One bind that finds its port in use.
bind_loop-busy :
    (bind : ℕ → ℕ → Reply) (remaining i port : ℕ)
    → bind i (next_port port) ≡ failed eaddrinuse
    → bind_loop bind (suc remaining) i port ≡ bind_loop bind remaining (i + 1) (next_port port)
unfolding bind_loop
bind_loop-busy bind remaining i port h = rw (bind_loop, h) refl

bind_loop-final :
    (bind : ℕ → ℕ → Reply) (remaining i port : ℕ) (r : Reply)
    → bind i (next_port port) ≡ r
    → IsFinal r
    → bind_loop bind (suc remaining) i port ≡ (error_of r, next_port port)
unfolding bind_loop
bind_loop-final bind remaining i port (answered n) h f = rw (bind_loop, h) refl
bind_loop-final bind remaining i port (failed e) h f =
    let other : (e == eaddrinuse) ≡ false = ne→== _ _ f in rw (bind_loop, h, other) refl

-- The search goes on from the port after `i` others.
bind_loop-search :
    (bind : ℕ → ℕ → Reply) (first remaining i k port : ℕ) (r : Reply)
    → minport ≤ first
    → first ≤ maxport
    → next_port port ≡ nth_port first i
    → k < remaining
    → ((j : ℕ) → j < k → bind (i + j) (nth_port first (i + j)) ≡ failed eaddrinuse)
    → bind (i + k) (nth_port first (i + k)) ≡ r
    → IsFinal r
    → bind_loop bind remaining i port ≡ (error_of r, nth_port first (i + k))
bind_loop-search bind first zero i k port r lo hi at more busy here f = elim more [ ]
bind_loop-search bind first (suc remaining) i zero port r lo hi at more busy here f =
    let place : i + 0 ≡ i = omega arith in
    let tried : bind i (next_port port) ≡ r =
      ap (bind i) at ∙ subst (λ j. bind j (nth_port first j) ≡ r) place here in
    bind_loop-final bind remaining i port r tried f
    ∙ ap (λ x. (error_of r, x)) (at ∙ ap (nth_port first) (sym place))
bind_loop-search bind first (suc remaining) i (suc k) port r lo hi at more busy here f =
    let place : i + 0 ≡ i = omega arith in
    let on : i + suc k ≡ i + 1 + k = omega arith in
    let tried : bind i (next_port port) ≡ failed eaddrinuse =
      ap (bind i) at
      ∙ subst (λ j. bind j (nth_port first j) ≡ failed eaddrinuse) place (busy 0 (omega arith)) in
    let later : next_port (next_port port) ≡ nth_port first (i + 1) =
      ap next_port at ∙ next-nth first i lo hi ∙ ap (nth_port first) (omega arith) in
    bind_loop-busy bind remaining i port tried
    ∙ bind_loop-search bind first remaining (i + 1) k (next_port port) r lo hi later
        (omega (arith, more))
        (λ j h.
          subst (λ x. bind x (nth_port first x) ≡ failed eaddrinuse) (omega arith)
            (busy (suc j) (omega (arith, h))))
        (subst (λ x. bind x (nth_port first x) ≡ r) on here) f
    ∙ ap (λ x. (error_of r, nth_port first x)) (sym on)

answer-outcome :
    (connected r : Reply)
    → elim (error_of r) [ none ↦ connected | some e ↦ failed e ] ≡ outcome connected r
answer-outcome connected (answered n) = refl
answer-outcome connected (failed e) = refl

-- With a source address, the ports from 1024 to 51023 are tried one after the other, going round,
-- from the one after the address's port on. Where the first `k` are in use, fewer than 49999, and the
-- next bind does not give EADDRINUSE, the search ends there, the address has that port, and the socket
-- is connected where it was bound; another error is returned.
pub ephemeral_connect_lem :
    (os : Os) (src : SockAddr) (k : ℕ) (r : Reply)
    → k < 49999
    → ((j : ℕ) → j < k → os.bind j (nth_port (next_port src.port_number) j) ≡ failed eaddrinuse)
    → os.bind k (nth_port (next_port src.port_number) k) ≡ r
    → IsFinal r
    → ephemeral_connect os (some src) ≡ (
      outcome os.connect r,
      some (record src { port_number = nth_port (next_port src.port_number) k }),
    )
unfolding ephemeral_connect
ephemeral_connect_lem os src k r more busy here f =
    let (lo, hi) = next_port-in_range src.port_number in
    let first : ℕ = next_port src.port_number in
    let start : first ≡ nth_port first 0 = omega (arith, lo, hi) in
    let busy' : (j : ℕ) → j < k → os.bind (0 + j) (nth_port first (0 + j)) ≡ failed eaddrinuse =
      λ j h.
        subst (λ x. os.bind x (nth_port first x) ≡ failed eaddrinuse) (omega arith) (busy j h) in
    let here' : os.bind (0 + k) (nth_port first (0 + k)) ≡ r =
      subst (λ x. os.bind x (nth_port first x) ≡ r) (omega arith) here in
    let found : bind_loop os.bind 49999 0 src.port_number ≡ (error_of r, nth_port first k) =
      bind_loop-search os.bind first 49999 0 k src.port_number r lo hi start more busy' here' f
      ∙ ap (λ x. (error_of r, nth_port first x)) (omega arith) in
    ap
      (λ x. (
        elim x.0 [ none ↦ os.connect | some e ↦ failed e ],
        some (record src { port_number = x.1 }),
      ))
      found
    ∙ ap (λ x. (x, some (record src { port_number = nth_port first k })))
        (answer-outcome os.connect r)
