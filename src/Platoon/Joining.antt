-- ===== src/Platoon/Joining.antt =====
-- dkftpbench-0.45/Platoon.cc and robouser.cc: a new user joins the platoon.
use c10kcode.Common.{
  ℕ, ◌+◌, ◌<◌, ◌≡◌, ◌≢◌, refl, sym, ◌∙◌, ap, subst, Option, none, some, arith, ◌==◌, if◌then◌else◌,
  if_else, ne→==,
}
use c10kcode.Pipe.{Outcome, aborted, undefined, unfinished, returned, ◌>>=◌}
use c10kcode.Pipe
use c10kcode.Platoon.{
  uninit, connect, index, User, Platoon, maxusers, set_count, move_count, put_user,
}
use c10kcode.Platoon.Census.{IsCounted, census-put, weight, IsCounted-moved}
use c10kcode.Robouser.{World, moved_to, goto_state, start}
use c10kcode.Robouser.Quiet.{Returns, with_user-here, put-here}

-- What changes where a user starts in slot `i`.
pub record Joins (gone i : ℕ) (pl q : Platoon) : Type 0 where
  pub counted : IsCounted gone q
  pub was_free : pl.users i ≡ none
  pub others_kept : (j : ℕ) → j ≢ i → q.users j ≡ pl.users j
  pub user : User
  pub here : q.users i ≡ some user
  pub in_connect : user.state ≡ connect
  pub one_more : q.in_state ≡ set_count pl.in_state 1 (pl.in_state 1 + 1)
  pub same_target : q.user_target ≡ pl.user_target
  pub same_connecting_target : q.connecting_target ≡ pl.connecting_target
  pub same_last : q.last_connecting ≡ pl.last_connecting
  pub same_dead : q.dead ≡ pl.dead

abbrev weight_of : ℕ → ℕ → ℕ
weight_of j k = if j == k then 1 else 0

abbrev Weightless : Option User → Type 0
Weightless u = (k : ℕ) → k ≢ 0 → weight u k ≡ 0

not_counted : (k : ℕ) → k ≢ 0 → weight_of 0 k ≡ 0
not_counted k h = ground arith

uninit-Weightless : (u : User) → u.state ≡ uninit → Weightless (some u)
uninit-Weightless u e k h = ap (λ s. weight_of (index s) k) e ∙ not_counted k h

put-Weightless :
    (gone i : ℕ) (pl : Platoon) (u : Option User)
    → IsCounted gone pl
    → i < maxusers
    → Weightless (pl.users i)
    → Weightless u
    → IsCounted gone (put_user pl i u)
put-Weightless gone i pl u c h was is =
    let slot = λ (k : ℕ). census-put maxusers i k pl.users u h in
    record {
      alive = λ k p l. omega (arith, slot k, was k p, is k p, c.alive k p l);
      ended = omega (arith, slot 7, was 7 (omega arith), is 7 (omega arith), c.ended);
    }

abbrev of_some_counts : (ℕ → ℕ) → Outcome (ℕ → ℕ) → ℕ → ℕ
of_some_counts f aborted = f
of_some_counts f undefined = f
of_some_counts f unfinished = f
of_some_counts f (returned g) = g

-- The last step of `start`, with the new user in slot `i`.
module _ (gone i : ℕ) (pl p : Platoon) (w : World) (v : User) where
  joined :
      IsCounted gone p
      → i < maxusers
      → pl.users i ≡ none
      → ((j : ℕ) → j ≢ i → p.users j ≡ pl.users j)
      → p.users i ≡ some v
      → v.state ≡ uninit
      → p.in_state ≡ pl.in_state
      → (p.user_target ≡ pl.user_target)
        × (p.connecting_target ≡ pl.connecting_target)
        × (p.last_connecting ≡ pl.last_connecting)
        × (p.dead ≡ pl.dead)
      → Returns (Joins gone i pl) (goto_state w p i connect)
  unfolding goto_state
  joined c h free others at fresh counts (same_u, same_c, same_l, same_d) =
      let v' : User = record v { state = connect } in
      let (g, run, c') = IsCounted-moved gone i p v v' c h at in
      let first : move_count p.in_state (index v.state) 1
          ≡ returned (set_count p.in_state 1 (p.in_state 1 + 1)) =
        ap (λ s. move_count p.in_state (index s) 1) fresh in
      let same : g ≡ set_count p.in_state 1 (p.in_state 1 + 1) =
        ap (of_some_counts g) (sym run ∙ first) in
      let moved : Returns (Joins gone i pl) (moved_to w p i v connect) = rw run (record {
        counted = record { alive = c'.alive; ended = c'.ended };
        was_free = free;
        others_kept = λ j n. if_else (j == i) (some v') (p.users j) (ne→== j i n) ∙ others j n;
        user = v';
        here = put-here (record p { in_state = g }) i v';
        in_connect = refl;
        one_more = same ∙ ap (λ f. set_count f 1 (f 1 + 1)) counts;
        same_target = same_u;
        same_connecting_target = same_c;
        same_last = same_l;
        same_dead = same_d;
      }) in
      subst (Returns (Joins gone i pl)) (sym (with_user-here p i v _ at)) moved

pub start-Joins :
    (gone i : ℕ) (pl : Platoon) (w : World) (made : User)
    → IsCounted gone pl
    → i < maxusers
    → pl.users i ≡ none
    → Returns (Joins gone i pl) (start w (put_user pl i (some (record made { state = uninit }))) i)
unfolding start
start-Joins gone i pl w made c h free =
    let u : User = record made { state = uninit } in
    let p : Platoon = put_user pl i (some u) in
    let at : p.users i ≡ some u = put-here pl i u in
    let v : User = record u {
      fcp = Pipe.init u.fcp w.max_bytes_per_sec (w.local_addr i);
      started_at = 0;
      bytes_fetched = 0;
      reads = 0;
      timer = if w.sked_ok then some w.now else none;
    } in
    let q : Platoon = put_user p i (some v) in
    let c1 : IsCounted gone p =
      put-Weightless gone i pl (some u) c h (λ k n. ap (λ o. weight o k) free)
        (uninit-Weightless u refl) in
    let c2 : IsCounted gone q =
      put-Weightless gone i p (some v) c1 h
        (λ k n. ap (λ o. weight o k) at ∙ uninit-Weightless u refl k n)
        (uninit-Weightless v refl) in
    let others : (j : ℕ) → j ≢ i → q.users j ≡ pl.users j = λ j n.
      if_else (j == i) (some v) (p.users j) (ne→== j i n)
      ∙ if_else (j == i) (some u) (pl.users j) (ne→== j i n) in
    subst (Returns (Joins gone i pl)) (sym (with_user-here p i u _ at))
      (joined gone i pl q w v c2 h free others (put-here p i v) refl refl (refl, refl, refl, refl))
