-- ===== src/IssService/Watching.antt =====
-- No client of a service is lost to `select`.
use computer_networks_assign.Prelude.{
  ℕ, ◌+◌, ◌≡◌, ap, sym, ◌∙◌, subst, true, false, ◌||◌, List, [], ◌∷◌, ◌++◌, length, take,
  take-append, append-nil, append_assoc, if◌then◌else◌, All, All-append, Bool-cases, inl, inr, ◌⊎◌,
  arith,
}
use computer_networks_assign.Prelude.Int.{ℤ, pos, is_neg, ltz, eqz, eqz_self}
use computer_networks_assign.Os.{accept, recvmsg, Trace, Os, done, pure, ◌>>=◌}
use computer_networks_assign.Os.Bind.{done_injective, >>-done, >>=-done}
use computer_networks_assign.Inetd.{FdSet, fd_set}
use computer_networks_assign.IssService.{
  Loop, enter, fd_clr, check_first, check_passed, talk, scan, round,
}

-- Every descriptor of the list is in the set.
abbrev pub Watched : List ℤ → FdSet → Type 0
Watched fds set = All (λ fd. set fd ≡ true) fds

abbrev Keeps : FdSet → FdSet → Type 0
Keeps set set' = (x : ℤ) → set x ≡ true → set' x ≡ true

Watched-more :
    (fds : List ℤ) (set set' : FdSet) → Keeps set set' → Watched fds set → Watched fds set'
Watched-more [] set set' k w = tt
Watched-more (fd ∷ fds) set set' k w = (k fd w.0, Watched-more fds set set' k w.1)

scan-Keeps :
    (buffer : List ℕ) (i : ℕ) (fds : List ℤ) (set set' : FdSet) (os : Os) (tr tr' : Trace)
    → scan buffer i fds set os tr ≡ done set' tr'
    → Keeps set set'
unfolding scan
scan-Keeps buffer i [] set set' os tr tr' e x h =
    ap (λ (f : FdSet). f x) (sym (done_injective set set' tr tr' e)) ∙ h
scan-Keeps buffer i (fd ∷ fds) set set' os tr tr' e x h =
    let next = if set fd then set else fd_set fd set in
    let (mid, _, rest) =
      >>-done (if set fd then talk buffer i fd else pure tt) (scan buffer (i + 1) fds next) os tr
        tr' set' e in
    scan-Keeps buffer (i + 1) fds next set' os mid tr' rest x (ground (arith, h))

scan-Watched :
    (buffer : List ℕ) (i : ℕ) (fds : List ℤ) (set set' : FdSet) (os : Os) (tr tr' : Trace)
    → scan buffer i fds set os tr ≡ done set' tr'
    → Watched fds set'
unfolding scan
scan-Watched buffer i [] set set' os tr tr' e = tt
scan-Watched buffer i (fd ∷ fds) set set' os tr tr' e =
    let next = if set fd then set else fd_set fd set in
    let (mid, _, rest) =
      >>-done (if set fd then talk buffer i fd else pure tt) (scan buffer (i + 1) fds next) os tr
        tr' set' e in
    (
      scan-Keeps buffer (i + 1) fds next set' os mid tr' rest fd (ground (arith, eqz_self fd)),
      scan-Watched buffer (i + 1) fds next set' os mid tr' rest,
    )

-- A descriptor that is entered comes last, and into the set.
record Enters (fd : ℤ) (v v' : Loop) : Type 0 where
  last : v'.nsfd ≡ v.nsfd ++ fd ∷ []
  set : (x : ℤ) → v'.readset x ≡ (eqz x fd || v.readset x)
  same_f : v'.f ≡ v.f

enter-Enters :
    (fd : ℤ) (v v' : Loop) (os : Os) (tr tr' : Trace)
    → enter fd v os tr ≡ done v' tr'
    → Enters fd v v'
unfolding enter
enter-Enters fd v v' os tr tr' e = record {
  last = ground arith;
  set = λ x. ground arith;
  same_f = ground arith;
}

-- The clients that one of the first two steps adds.
record Added (v v' : Loop) : Type 0 where
  new : List ℤ
  last : v'.nsfd ≡ v.nsfd ++ new
  watched : Watched new v'.readset

check_first-Added :
    (sfd : ℤ) (v v' : Loop) (os : Os) (tr tr' : Trace)
    → eqz (os tr (accept sfd)).ret sfd ≡ false
    → check_first sfd v os tr ≡ done v' tr'
    → Added v v' × ((v'.f ≡ true) ⊎ (v'.readset sfd ≡ true))
unfolding check_first
check_first-Added sfd v v' os tr tr' other e = elim (Bool-cases (v.readset sfd)) [
  | inl ready ↦
      let fd = (os tr (accept sfd)).ret in
      let got : Trace = record { call = accept sfd; reply = os tr (accept sfd) } ∷ tr in
      let first : Loop → Loop = λ w. record w { readset = fd_clr sfd w.readset; f = true } in
      let (w, mid, ran, last) =
        >>=-done (enter fd v) (λ w. pure (first w)) os got tr' v' (ground arith) in
      let n = enter-Enters fd v w os got mid ran in
      let same : first w ≡ v' = done_injective (first w) v' mid tr' last in
      (
        record {
          new = fd ∷ [];
          last = ap (λ (u : Loop). u.nsfd) (sym same) ∙ n.last;
          watched = (
            ap (λ (u : Loop). u.readset fd) (sym same)
                ∙ ground (arith, n.set fd, eqz_self fd, other),
            tt,
          );
        },
        inl (ap (λ (u : Loop). u.f) (sym same)),
      )
  | inr idle ↦
      let same : (if v.f then v else record v { readset = fd_set sfd v.readset }) ≡ v' =
        done_injective (if v.f then v else record v { readset = fd_set sfd v.readset }) v' tr tr'
          (ground arith) in
      (
        record { new = []; last = ground (arith, append-nil v.nsfd); watched = tt },
        elim (Bool-cases v.f) [
          | inl on ↦ inl (ground arith)
          | inr off ↦
              let set : record v { readset = fd_set sfd v.readset } ≡ v' = ground arith in
              inr (ap (λ (u : Loop). u.readset sfd) (sym set) ∙ ground (arith, eqz_self sfd))
        ],
      )
]

unchanged_passed :
    (usfd : ℤ) (v v' : Loop)
    → v.readset usfd ≡ true
    → v ≡ v'
    → Added v v' × Keeps v.readset v'.readset × (v'.readset usfd ≡ true) × (v'.f ≡ v.f)
unchanged_passed usfd v v' ready same = (
  record {
    new = [];
    last = ap (λ (u : Loop). u.nsfd) (sym same) ∙ sym (append-nil v.nsfd);
    watched = tt;
  },
  (λ x h. ap (λ (u : Loop). u.readset x) (sym same) ∙ h),
  ap (λ (u : Loop). u.readset usfd) (sym same) ∙ ready,
  ap (λ (u : Loop). u.f) (sym same),
)

check_passed-Added :
    (usfd : ℤ) (v v' : Loop) (os : Os) (tr tr' : Trace)
    → check_passed usfd v os tr ≡ done v' tr'
    → Added v v' × Keeps v.readset v'.readset × (v'.readset usfd ≡ true) × (v'.f ≡ v.f)
unfolding check_passed
check_passed-Added usfd v v' os tr tr' e = elim (Bool-cases (v.readset usfd)) [
  | inl ready ↦
      let m = os tr (recvmsg usfd) in
      let got : Trace = record { call = recvmsg usfd; reply = m } ∷ tr in
      elim (Bool-cases (is_neg m.ret)) [
        | inl failed ↦ unchanged_passed usfd v v' ready (ground arith)
        | inr ok ↦
            let n = enter-Enters m.passed v v' os got tr' (ground arith) in
            (
              record {
                new = m.passed ∷ [];
                last = n.last;
                watched = (n.set m.passed ∙ ground (arith, eqz_self m.passed), tt);
              },
              (λ x h. n.set x ∙ ground (arith, h)),
              n.set usfd ∙ ground (arith, ready),
              n.same_f,
            )
      ]
  | inr idle ↦
      let same : record v { readset = fd_set usfd v.readset } ≡ v' =
        done_injective (record v { readset = fd_set usfd v.readset }) v' tr tr' (ground arith) in
      (
        record { new = []; last = ground (arith, append-nil v.nsfd); watched = tt },
        (λ x h. ap (λ (u : Loop). u.readset x) (sym same) ∙ ground (arith, h)),
        ap (λ (u : Loop). u.readset usfd) (sym same) ∙ ground (arith, eqz_self usfd),
        ap (λ (u : Loop). u.f) (sym same),
      )
]

abbrev rescanned : Loop → FdSet → Loop
rescanned v set = record v { readset = set }

-- The last step of a round: the clients from before are looked at, those that are new are in the set.
scan_clients-Watched :
    (buffer : List ℕ) (fds new : List ℤ) (v v' : Loop) (os : Os) (tr tr' : Trace)
    → v.nsfd ≡ fds ++ new
    → Watched new v.readset
    → (scan buffer 0 (take (length fds) v.nsfd) v.readset >>= λ set. pure (rescanned v set)) os tr
      ≡ done v' tr'
    → Watched v'.nsfd v'.readset × Keeps v.readset v'.readset × (v'.nsfd ≡ v.nsfd) × (v'.f ≡ v.f)
scan_clients-Watched buffer fds new v v' os tr tr' grown w e =
    let (set, mid, run, last) =
      >>=-done (scan buffer 0 (take (length fds) v.nsfd) v.readset) (λ set. pure (rescanned v set))
        os tr tr' v' e in
    let same : rescanned v set ≡ v' = done_injective (rescanned v set) v' mid tr' last in
    let kept = scan-Keeps buffer 0 (take (length fds) v.nsfd) v.readset set os tr mid run in
    let seen = scan-Watched buffer 0 (take (length fds) v.nsfd) v.readset set os tr mid run in
    let old : Watched fds set =
      subst (λ l. Watched l set) (ap (take (length fds)) grown ∙ take-append fds new) seen in
    let all : Watched v.nsfd set =
      subst (λ l. Watched l set) (sym grown)
        (All-append _ fds new old (Watched-more new v.readset set kept w)) in
    (
      subst (λ (u : Loop). Watched u.nsfd u.readset) same all,
      (λ x h. ap (λ (u : Loop). u.readset x) (sym same) ∙ kept x h),
      ap (λ (u : Loop). u.nsfd) (sym same),
      ap (λ (u : Loop). u.f) (sym same),
    )

-- When `select` reports a descriptor and the round returns to the loop, the clients are those from
-- before and the new ones behind them, and the set for the next `select` holds all of them, the
-- connection to iss.c, and, as long as no client was accepted, the socket of the service; `accept` does
-- not return the socket that it accepts on.
pub round_keeps_clients :
    (buffer : List ℕ) (usfd sfd : ℤ) (v v' : Loop) (r : ℤ) (ready : FdSet) (os : Os)
    (tr tr' : Trace)
    → ltz (pos 0) r ≡ true
    → eqz (os tr (accept sfd)).ret sfd ≡ false
    → round buffer usfd sfd v r ready os tr ≡ done v' tr'
    → ((new : List ℤ) × (v'.nsfd ≡ v.nsfd ++ new))
      × Watched v'.nsfd v'.readset
      × (v'.readset usfd ≡ true)
      × ((v'.f ≡ true) ⊎ (v'.readset sfd ≡ true))
unfolding round
round_keeps_clients buffer usfd sfd v v' r ready os tr tr' p other e =
    let (v1, tr1, first, e1) =
      >>=-done (check_first sfd (rescanned v ready))
        (λ v1. check_passed usfd v1 >>= λ v2.
          scan buffer 0 (take (length v.nsfd) v2.nsfd) v2.readset >>= λ set.
          pure (rescanned v2 set))
        os tr tr' v' (ground arith) in
    let (v2, tr2, second, e2) =
      >>=-done (check_passed usfd v1)
        (λ v2. scan buffer 0 (take (length v.nsfd) v2.nsfd) v2.readset >>= λ set.
          pure (rescanned v2 set))
        os tr1 tr' v' e1 in
    let (a, watches) = check_first-Added sfd (rescanned v ready) v1 os tr tr1 other first in
    let (b, keeps, has_usfd, same_f) = check_passed-Added usfd v1 v2 os tr1 tr2 second in
    let grown : v2.nsfd ≡ v.nsfd ++ (a.new ++ b.new) =
      b.last ∙ ap (λ l. l ++ b.new) a.last ∙ append_assoc v.nsfd a.new b.new in
    let new : Watched (a.new ++ b.new) v2.readset =
      All-append _ a.new b.new (Watched-more a.new v1.readset v2.readset keeps a.watched)
        b.watched in
    let (all, kept, same, f) =
      scan_clients-Watched buffer v.nsfd (a.new ++ b.new) v2 v' os tr2 tr' grown new e2 in
    (
      (a.new ++ b.new, same ∙ grown),
      all,
      kept usfd has_usfd,
      elim watches [
        | inl on ↦ inl (f ∙ same_f ∙ on)
        | inr set_sfd ↦ inr (kept sfd (keeps sfd set_sfd))
      ],
    )
