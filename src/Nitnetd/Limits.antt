-- ===== src/Nitnetd/Limits.antt =====
-- Do the semaphores limit anything?
use mathlib.Core.Path.{subst}
use computer_networks_assign.Prelude.{
  ℕ, ◌+◌, ◌≡◌, refl, ap, sym, ◌∙◌, true, false, List, [], ◌∷◌, arith, Bool-cases, inl, inr,
}
use computer_networks_assign.Prelude.Int.{ℤ, ◌+ℤ◌, is_neg, ltz}
use computer_networks_assign.Os.{Call, sendmsg, accept, close, fork, waitpid, pure, Trace, Os, done}
use computer_networks_assign.Os.Bind.{done_injective, >>-done, >>=-done}
use computer_networks_assign.Inetd.{Service, FdSet, serve_udp}
use computer_networks_assign.Nitnetd.{
  Sem, semaphore_wait, semaphore_release, Sems, initial, occupied, wait_for, release_of, wifexited,
  parent, forward, start, serve_tcp, visit, rearm, scan,
}

-- `count` is at most `max`.
abbrev pub Within : Sem → Type 0
Within s = ltz s.max s.count ≡ false

abbrev pub BothWithin : Sems → Type 0
BothWithin sems = Within sems.s1 × Within sems.s2

pub release-wait : (s : Sem) → Within s → semaphore_release (semaphore_wait s) ≡ s
unfolding semaphore_release semaphore_wait ◌+ℤ◌
release-wait s h = ground arith

wait-Within : (s : Sem) → Within s → Within (semaphore_wait s)
unfolding semaphore_wait ◌+ℤ◌
wait-Within s h = ground arith

release-Within : (s : Sem) → Within s → Within (semaphore_release s)
unfolding semaphore_release ◌+ℤ◌
release-Within s h = ground arith

pub wait_for-Within : (i : ℕ) (sems : Sems) → BothWithin sems → BothWithin (wait_for i sems)
unfolding wait_for
wait_for-Within i sems h = ground (arith, wait-Within sems.s1 h.0, wait-Within sems.s2 h.1)

pub release_of-Within : (i : ℕ) (sems : Sems) → BothWithin sems → BothWithin (release_of i sems)
unfolding release_of
release_of-Within i sems h = ground (arith, release-Within sems.s1 h.0, release-Within sems.s2 h.1)

release_of-wait_for :
    (i : ℕ) (sems : Sems) → BothWithin sems → release_of i (wait_for i sems) ≡ sems
unfolding release_of wait_for
release_of-wait_for i sems h = ground (arith, release-wait sems.s1 h.0, release-wait sems.s2 h.1)

-- The descriptors handed to the other server so far, and the children started.
abbrev pub send_weight : Call → ℕ
send_weight (sendmsg fd passed) = 1
send_weight c = 0

abbrev pub fork_weight : Call → ℕ
fork_weight fork = 1
fork_weight c = 0

unfoldable pub sends : Trace → ℕ
sends [] = 0
sends (e ∷ tr) = send_weight e.call + sends tr

unfoldable pub forks : Trace → ℕ
forks [] = 0
forks (e ∷ tr) = fork_weight e.call + forks tr

-- Forks succeed, and every child ends by itself.
abbrev pub Normal : Os → Type 0
Normal os =
    ((tr : Trace) → is_neg (os tr fork).ret ≡ false)
    × ((tr : Trace) (p : ℤ) → wifexited (os tr (waitpid p)).passed ≡ true)

parent-restores :
    (i : ℕ) (sems sems' : Sems) (nsfd p : ℤ) (os : Os) (tr tr' : Trace)
    → ((tr : Trace) → wifexited (os tr (waitpid p)).passed ≡ true)
    → BothWithin sems
    → parent i (wait_for i sems) nsfd p os tr ≡ done sems' tr'
    → (sems' ≡ sems) × (sends tr' ≡ sends tr)
unfolding parent sends
parent-restores i sems sems' nsfd p os tr tr' k h e =
    let closed = record { call = close nsfd; reply = os tr (close nsfd) } ∷ tr in
    ground (arith, k closed, release_of-wait_for i sems h)

start-restores :
    (i : ℕ) (sems sems' : Sems) (s : Service) (nsfd : ℤ) (os : Os) (tr tr' : Trace)
    → Normal os
    → BothWithin sems
    → start i (wait_for i sems) s nsfd os tr ≡ done sems' tr'
    → (sems' ≡ sems) × (sends tr' ≡ sends tr)
unfolding start sends
start-restores i sems sems' s nsfd os tr tr' k h e =
    let p = (os tr fork).ret in
    let forked = record { call = fork; reply = os tr fork } ∷ tr in
    ground (arith, k.0 tr, parent-restores i sems sems' nsfd p os forked tr' (λ tr. k.1 tr p) h)

serve_tcp-restores :
    (nufd : ℤ) (i : ℕ) (sems sems' : Sems) (s : Service) (os : Os) (tr tr' : Trace)
    → Normal os
    → BothWithin sems
    → occupied i sems ≡ false
    → serve_tcp nufd i sems s os tr ≡ done sems' tr'
    → (sems' ≡ sems) × (sends tr' ≡ sends tr)
unfolding serve_tcp forward sends
serve_tcp-restores nufd i sems sems' s os tr tr' k h free e =
    let nsfd = (os tr (accept s.fd)).ret in
    let accepted = record { call = accept s.fd; reply = os tr (accept s.fd) } ∷ tr in
    ground (arith, free, start-restores i sems sems' s nsfd os accepted tr' k h)

serve_udp-sends :
    (s : Service) (os : Os) (tr tr' : Trace)
    → serve_udp s os tr ≡ done tt tr'
    → sends tr' ≡ sends tr
unfolding serve_udp sends
serve_udp-sends s os tr tr' e = ground arith

visit-restores :
    (nufd : ℤ) (i : ℕ) (sems sems' : Sems) (s : Service) (set : FdSet) (os : Os) (tr tr' : Trace)
    → Normal os
    → BothWithin sems
    → occupied i sems ≡ false
    → visit nufd i sems s set os tr ≡ done sems' tr'
    → (sems' ≡ sems) × (sends tr' ≡ sends tr)
visit-restores nufd i sems sems' s set os tr tr' k h free e = elim (Bool-cases (set s.fd)) [
  | inr out ↦ ground arith
  | inl in_set ↦ elim (Bool-cases s.is_tcp) [
    | inl tcp ↦ serve_tcp-restores nufd i sems sems' s os tr tr' k h free (ground arith)
    | inr udp ↦
        let (mid, run, last) = >>-done (serve_udp s) (pure sems) os tr tr' sems' (ground arith) in
        ground (arith, serve_udp-sends s os tr mid run)
  ]
]

scan-restores :
    (nufd : ℤ) (i : ℕ) (sems : Sems) (ss : List Service) (set : FdSet) (r : FdSet × Sems) (os : Os)
    (tr tr' : Trace)
    → Normal os
    → BothWithin sems
    → ((j : ℕ) → occupied j sems ≡ false)
    → scan nufd i sems ss set os tr ≡ done r tr'
    → (r.1 ≡ sems) × (sends tr' ≡ sends tr)
unfolding scan
scan-restores nufd i sems [] set r os tr tr' k h free e =
    (ap (λ (x : FdSet × Sems). x.1) (sym (done_injective (set, sems) r tr tr' e)), ground arith)
scan-restores nufd i sems (s ∷ ss) set r os tr tr' k h free e =
    let (mid_sems, mid, first, rest) =
      >>=-done (visit nufd i sems s set) (λ w. scan nufd (i + 1) w ss (rearm s set)) os tr tr' r
        e in
    let (same, quiet) = visit-restores nufd i sems mid_sems s set os tr mid k h (free i) first in
    let (same', quiet') =
      scan-restores nufd (i + 1) sems ss (rearm s set) r os mid tr' k h free (
        subst (λ (w : Sems). scan nufd (i + 1) w ss (rearm s set) os mid ≡ done r tr') same rest) in
    (same', quiet' ∙ quiet)

initial-free : (j : ℕ) → occupied j initial ≡ false
unfolding occupied initial
initial-free j = ground arith

initial-Within : BothWithin initial
unfolding initial
initial-Within = (refl, refl)

-- While forks succeed and children end by themselves, a round that returns leaves both counts as
-- `semaphore_init` set them and hands no client to the other server: the parent waits for its child
-- before the next client, so that the limits of 2 and 3 are never reached.
pub scan_never_forwards :
    (nufd : ℤ) (ss : List Service) (set : FdSet) (r : FdSet × Sems) (os : Os) (tr tr' : Trace)
    → Normal os
    → scan nufd 0 initial ss set os tr ≡ done r tr'
    → (r.1 ≡ initial) × (sends tr' ≡ sends tr)
scan_never_forwards nufd ss set r os tr tr' k e =
    scan-restores nufd 0 initial ss set r os tr tr' k initial-Within initial-free e
