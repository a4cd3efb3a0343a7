-- ===== src/Groups/Effects.antt =====
-- The effects of the sender's operations, if the operating system lets it signal and group its children.
use Prim.Native.String.{String}
use computer_networks_assign.Prelude.{
  ℕ, ◌≡◌, refl, Bool, true, List, ◌∷◌, ◌==◌, arith, Bool-cases, inl, inr, ap, sym, ◌∙◌,
}
use computer_networks_assign.Prelude.Int.{ℤ, minus_one, is_zero, eqz, eqz_self}
use computer_networks_assign.Os.{
  Call, killpg, setpgid, poll, read, sigusr1, Trace, Os, done, pure, ◌>>◌, call,
}
use computer_networks_assign.Os.Bind.{>>=-done, >>-done}
use computer_networks_assign.Groups.{
  sigstop, sigcont, Sender, count_kills, pass_message, resume, handler, make_groups, strcpy_c1,
  poll_one, poll_round, revents_of,
}
use computer_networks_assign.Groups.Members.{
  signal_to, moved, effects, in_group, Obeys, IsApart, grouping, turn,
}

-- A trace with one call more.
abbrev after : Os → Call → Trace → Trace
after os c tr = record { call = c; reply = os tr c } ∷ tr

resume-effects :
    (v : Sender) (own : ℤ) (name1 name2 : String) (message : List ℕ) (os : Os) (tr tr' : Trace)
    → Obeys v os
    → in_group own own (effects tr) ≡ true
    → resume own name1 name2 message os tr ≡ done tt tr'
    → effects tr' ≡ signal_to own sigusr1 ∷ signal_to own sigcont ∷ effects tr
unfolding resume pass_message effects in_group
resume-effects v own name1 name2 message os tr tr' o m e =
    let one = o.delivers tr own own sigcont m in
    let two = o.delivers (after os (killpg own sigcont) tr) own own sigusr1 (ground (arith, one)) in
    ground (arith, one, two)

stop-resume-effects :
    (v w w' : Sender) (other own : ℤ) (name1 name2 : String) (message : List ℕ) (os : Os)
    (tr tr' : Trace)
    → Obeys v os
    → in_group other other (effects tr) ≡ true
    → in_group own own (effects tr) ≡ true
    → (call (killpg other sigstop) >> resume own name1 name2 message >> pure w) os tr ≡ done w' tr'
    → (w' ≡ w)
      × (effects tr'
          ≡ signal_to own sigusr1 ∷ signal_to own sigcont ∷ signal_to other sigstop ∷ effects tr)
unfolding effects in_group
stop-resume-effects v w w' other own name1 name2 message os tr tr' o m1 m2 e =
    let zero_back = o.delivers tr other other sigstop m1 in
    let (mid, run, last) =
      >>-done (call (killpg other sigstop) >> resume own name1 name2 message) (pure w) os tr tr' w'
        e in
    let stopped : effects (after os (killpg other sigstop) tr)
        ≡ signal_to other sigstop ∷ effects tr =
      ground (arith, zero_back) in
    let resumed =
      resume-effects v own name1 name2 message os (after os (killpg other sigstop) tr) mid o
        (ground (arith, zero_back)) run in
    let ends : mid ≡ tr' = ground arith in (ground arith, ground (arith, resumed, stopped, ends))

pub handler-effects :
    (sig : ℕ) (v0 v v' : Sender) (os : Os) (tr tr' : Trace)
    → Obeys v0 os
    → in_group v.s1 v.s1 (effects tr) ≡ true
    → in_group v.b v.b (effects tr) ≡ true
    → handler sig v os tr ≡ done v' tr'
    → (v' ≡ count_kills 3 v) × (effects tr' ≡ turn sig v (effects tr))
unfolding handler
handler-effects sig v0 v v' os tr tr' o s1_in b_in e = elim (Bool-cases (sig == sigusr1)) [
  | inl usr1 ↦
      let p =
        stop-resume-effects v0 (count_kills 3 v) v' v.b v.s1 "sc1" "sc2" v.buff_c1 os tr tr' o b_in
          s1_in (ground arith) in
      (p.0, ground (arith, p.1))
  | inr usr2 ↦
      let p =
        stop-resume-effects v0 (count_kills 3 v) v' v.s1 v.b "a" "b" v.buff_c1 os tr tr' o s1_in
          b_in (ground arith) in
      (p.0, ground (arith, p.1))
]

-- What a round of `polling` leaves as it was.
abbrev pub Keeps : Sender → Sender → Trace → Trace → Type 0
Keeps v v' tr tr' = (effects tr' ≡ effects tr) × (v'.s1 ≡ v.s1) × (v'.b ≡ v.b)

strcpy_c1-Keeps :
    (buff : List ℕ) (v v' : Sender) (os : Os) (tr tr' : Trace)
    → strcpy_c1 buff v os tr ≡ done v' tr'
    → Keeps v v' tr tr'
unfolding strcpy_c1
strcpy_c1-Keeps buff v v' os tr tr' e = ground arith

poll_one-Keeps :
    (ready : Bool) (fd : ℤ) (v v' : Sender) (os : Os) (tr tr' : Trace)
    → poll_one ready fd v os tr ≡ done v' tr'
    → Keeps v v' tr tr'
unfolding poll_one effects
poll_one-Keeps ready fd v v' os tr tr' e =
    ground (arith, strcpy_c1-Keeps (os tr (read fd)).text v v' os (after os (read fd) tr) tr')

pub poll_round-Keeps :
    (c1 c2 : ℤ) (v v' : Sender) (os : Os) (tr tr' : Trace)
    → poll_round c1 c2 v os tr ≡ done v' tr'
    → Keeps v v' tr tr'
unfolding poll_round effects
poll_round-Keeps c1 c2 v v' os tr tr' e =
    let p = os tr poll in
    let r = revents_of p.text in
    elim (Bool-cases (eqz p.ret minus_one)) [
      | inl bad ↦ absurd (ground arith)
      | inr fine ↦ elim (Bool-cases (is_zero p.ret)) [
        | inl none_ready ↦ ground arith
        | inr some_ready ↦
            let (w, mid, first, second) =
              >>=-done (poll_one r.0 c1 v) (λ w. poll_one r.1 c2 w) os (after os poll tr) tr' v'
                (ground arith) in
            ground (
              arith,
              poll_one-Keeps r.0 c1 v w os (after os poll tr) mid first,
              poll_one-Keeps r.1 c2 w v' os mid tr' second,
            )
      ]
    ]

pub make_groups-effects :
    (v : Sender) (os : Os) (tr tr' : Trace)
    → Obeys v os
    → IsApart v
    → make_groups v.s1 v.s2 v.a v.b os tr ≡ done tt tr'
    → effects tr' ≡ grouping v (effects tr)
unfolding make_groups effects in_group
make_groups-effects v os tr tr' o d e =
    let t1 = after os (setpgid v.b v.b) tr in
    let t2 = after os (setpgid v.a v.b) t1 in
    let t3 = after os (setpgid v.s1 v.s1) t2 in
    let t4 = after os (setpgid v.s2 v.s1) t3 in
    let t5 = after os (killpg v.s1 sigstop) t4 in
    let r1 = o.founds tr v.b (inr (inr (inr refl))) in
    let e1 : effects t1 ≡ moved v.b v.b ∷ effects tr = ground (arith, r1) in
    let r2 =
      o.joins t1 v.a v.b v.b (inr (inr (inl refl)))
        (ap (in_group v.b v.b) e1 ∙ ground (arith, eqz_self v.b)) in
    let e2 : effects t2 ≡ moved v.a v.b ∷ effects t1 = ground (arith, r2) in
    let r3 = o.founds t2 v.s1 (inl refl) in
    let e3 : effects t3 ≡ moved v.s1 v.s1 ∷ effects t2 = ground (arith, r3) in
    let r4 =
      o.joins t3 v.s2 v.s1 v.s1 (inr (inl refl))
        (ap (in_group v.s1 v.s1) e3 ∙ ground (arith, eqz_self v.s1)) in
    let e4 : effects t4 ≡ moved v.s2 v.s1 ∷ effects t3 = ground (arith, r4) in
    let whole =
      e4
      ∙ ap (λ es. moved v.s2 v.s1 ∷ es)
          (e3 ∙ ap (λ es. moved v.s1 v.s1 ∷ es) (e2 ∙ ap (λ es. moved v.a v.b ∷ es) e1)) in
    let r5 =
      o.delivers t4 v.s1 v.s1 sigstop
        (ap (in_group v.s1 v.s1) whole ∙ ground (arith, eqz_self v.s1, eqz_self v.s2)) in
    let e5 : effects t5 ≡ signal_to v.s1 sigstop ∷ effects t4 = ground (arith, r5) in
    let r6 = o.delivers t5 v.b v.b sigstop (
      ap (in_group v.b v.b) (e5 ∙ ap (λ es. signal_to v.s1 sigstop ∷ es) whole)
      ∙ ground (arith, d.s1_b, d.s2_b, eqz_self v.b, eqz_self v.a)) in
    let e6 : effects (after os (killpg v.b sigstop) t5) ≡ signal_to v.b sigstop ∷ effects t5 =
      ground (arith, r6) in
    let ends : after os (killpg v.b sigstop) t5 ≡ tr' = ground arith in
    ap effects (sym ends)
    ∙ e6
    ∙ ap (λ es. signal_to v.b sigstop ∷ es) (e5 ∙ ap (λ es. signal_to v.s1 sigstop ∷ es) whole)
