-- ===== src/MnServer/Clients.antt =====
-- What a round of the loop over the listening sockets keeps.
use computer_networks_assign.Prelude.{
  ℕ, zero, suc, ◌+◌, ◌≤◌, ◌≡◌, ap, sym, ◌∙◌, true, List, [], ◌∷◌, length, take, All, arith,
}
use computer_networks_assign.Prelude.Int.{ℤ, pos, ltz, eqz_self}
use computer_networks_assign.Os.{Call, thread, Trace, Os, done, ◌>>◌}
use computer_networks_assign.Os.Bind.{done_injective, >>-done, >>=-done}
use computer_networks_assign.Inetd.{Text, FdSet}
use computer_networks_assign.MnServer.{
  max_clients, start_thread, visit, rearm, scan, tell_ports, visit_raw, round,
}

abbrev weight : Call → ℕ
weight (thread k fd) = 1
weight c = 0

-- The threads started.
unfoldable pub threads : Trace → ℕ
threads [] = 0
threads (e ∷ tr) = weight e.call + threads tr

visit-threads :
    (kind ind ind' : ℕ) (fd : ℤ) (set : FdSet) (os : Os) (tr tr' : Trace)
    → visit kind ind fd set os tr ≡ done ind' tr'
    → ind ≤ max_clients
    → (threads tr' + ind ≡ threads tr + ind') × (ind' ≤ max_clients)
unfolding start_thread threads
visit-threads kind ind ind' fd set os tr tr' e h = ground arith

-- What is in the set stays in it.
scan_keeps :
    (kind n ind : ℕ) (fds : List ℤ) (set : FdSet) (r : FdSet × ℕ) (os : Os) (tr tr' : Trace) (x : ℤ)
    → scan kind n ind fds set os tr ≡ done r tr'
    → set x ≡ true
    → r.0 x ≡ true
unfolding scan
scan_keeps kind zero ind fds set r os tr tr' x e h =
    ap (λ (q : FdSet × ℕ). q.0 x) (sym (done_injective (set, ind) r tr tr' e)) ∙ h
scan_keeps kind (suc n) ind [] set r os tr tr' x e h = absurd (ground arith)
scan_keeps kind (suc n) ind (fd ∷ fds) set r os tr tr' x e h =
    let (ind', mid, _, rest) =
      >>=-done (visit kind ind fd set) (λ i. scan kind n i fds (rearm fd set)) os tr tr' r e in
    scan_keeps kind n ind' fds (rearm fd set) r os mid tr' x rest (ground (arith, h))

-- After a round: the first `n` items of `sfd` were all filled in, they are all in the set again, `ind`
-- has grown by the number of threads started, and `nsfd` has held them all.
pub record Served (n : ℕ) (fds : List ℤ) (ind ind' : ℕ) (set : FdSet) (tr tr' : Trace)
    : Type 0 where
  pub filled : n ≤ length fds
  pub watched : All (λ fd. set fd ≡ true) (take n fds)
  pub counted : threads tr' + ind ≡ threads tr + ind'
  pub fitting : ind' ≤ max_clients

scan-Served :
    (kind n ind : ℕ) (fds : List ℤ) (set : FdSet) (r : FdSet × ℕ) (os : Os) (tr tr' : Trace)
    → scan kind n ind fds set os tr ≡ done r tr'
    → ind ≤ max_clients
    → Served n fds ind r.1 r.0 tr tr'
unfolding scan
scan-Served kind zero ind fds set r os tr tr' e h =
    let same = done_injective (set, ind) r tr tr' e in
    record {
      filled = omega arith;
      watched = tt;
      counted = ground (arith, ap (λ (q : FdSet × ℕ). q.1) same);
      fitting = ground (arith, ap (λ (q : FdSet × ℕ). q.1) same);
    }
scan-Served kind (suc n) ind [] set r os tr tr' e h = absurd (ground arith)
scan-Served kind (suc n) ind (fd ∷ fds) set r os tr tr' e h =
    let (ind', mid, first, rest) =
      >>=-done (visit kind ind fd set) (λ i. scan kind n i fds (rearm fd set)) os tr tr' r e in
    let (count, fits) = visit-threads kind ind ind' fd set os tr mid first h in
    let s = scan-Served kind n ind' fds (rearm fd set) r os mid tr' rest fits in
    record {
      filled = omega (arith, s.filled);
      watched = (
        scan_keeps kind n ind' fds (rearm fd set) r os mid tr' fd rest
            (ground (arith, eqz_self fd)),
        s.watched,
      );
      counted = omega (arith, count, s.counted);
      fitting = s.fitting;
    }

visit_raw-threads :
    (rsfd : ℤ) (reply : Text) (set : FdSet) (os : Os) (tr tr' : Trace)
    → visit_raw rsfd reply set os tr ≡ done tt tr'
    → threads tr' ≡ threads tr
unfolding tell_ports threads
visit_raw-threads rsfd reply set os tr tr' e = ground arith

-- When `select` reports a descriptor and the round returns to the loop, every one of the `n` items of
-- `sfd` that the loop goes over had been filled in and is in the set for the next `select`, as is the
-- raw socket, and one thread was started for each client that was entered in `nsfd`, within its size.
pub round-Served :
    (kind n : ℕ) (rsfd : ℤ) (reply : Text) (ind : ℕ) (fds : List ℤ) (ret : ℤ) (ready : FdSet)
    (r : FdSet × ℕ) (os : Os) (tr tr' : Trace)
    → ltz (pos 0) ret ≡ true
    → ind ≤ max_clients
    → round kind n rsfd reply ind fds ret ready os tr ≡ done r tr'
    → Served n fds ind r.1 r.0 tr tr' × (r.0 rsfd ≡ true)
unfolding round
round-Served kind n rsfd reply ind fds ret ready r os tr tr' p h e =
    let scan' = scan kind n ind fds (rearm rsfd ready) in
    let some_ready : (visit_raw rsfd reply ready >> scan') os tr ≡ done r tr' = ground arith in
    let (mid, first, rest) = >>-done (visit_raw rsfd reply ready) scan' os tr tr' r some_ready in
    let s = scan-Served kind n ind fds (rearm rsfd ready) r os mid tr' rest h in
    let quiet = visit_raw-threads rsfd reply ready os tr mid first in
    (
      record {
        filled = s.filled;
        watched = s.watched;
        counted = omega (arith, s.counted, quiet);
        fitting = s.fitting;
      },
      scan_keeps kind n ind fds (rearm rsfd ready) r os mid tr' rsfd rest
          (ground (arith, eqz_self rsfd)),
    )
