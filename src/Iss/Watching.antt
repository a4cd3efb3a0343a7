-- ===== src/Iss/Watching.antt =====
-- No socket is lost to `select`.
use mathlib.Core.Path.{subst}
use computer_networks_assign.Prelude.{
  ℕ, ◌≡◌, ap, sym, ◌∙◌, true, List, [], ◌∷◌, ◌++◌, length, take, take-append, take-length, All,
  All-append, Bool-cases, inl, inr, ◌⊎◌, arith,
}
use computer_networks_assign.Prelude.Int.{ℤ, pos, is_neg, ltz, eqz_self}
use computer_networks_assign.Os.{Trace, Os, done, pure, read, kill, sigusr1, recvmsg, ◌>>=◌}
use computer_networks_assign.Os.Bind.{done_injective, >>-done, >>=-done}
use computer_networks_assign.Inetd.{FdSet, fd_set}
use computer_networks_assign.Iss.{
  filled, partner, Taken, Iss, index, new_partner, enter, take_over, from_tracer, visit, rearm,
  scan, check_services, check_tracer, scan_taken, round,
}

-- Every socket of the list is in the set.
abbrev pub Watched : List Taken → FdSet → Type 0
Watched ts set = All (λ t. set t.sfd ≡ true) ts

-- One set holds all that another holds.
abbrev Keeps : FdSet → FdSet → Type 0
Keeps set set' = (x : ℤ) → set x ≡ true → set' x ≡ true

Watched-more :
    (ts : List Taken) (set set' : FdSet) → Keeps set set' → Watched ts set → Watched ts set'
Watched-more [] set set' k w = tt
Watched-more (t ∷ ts) set set' k w = (k t.sfd w.0, Watched-more ts set set' k w.1)

scan-Keeps :
    (v : Iss) (ts : List Taken) (set set' : FdSet) (os : Os) (tr tr' : Trace)
    → scan v ts set os tr ≡ done set' tr'
    → Keeps set set'
unfolding scan
scan-Keeps v [] set set' os tr tr' e x h =
    ap (λ (f : FdSet). f x) (sym (done_injective set set' tr tr' e)) ∙ h
scan-Keeps v (t ∷ ts) set set' os tr tr' e x h =
    let (mid, _, rest) = >>-done (visit v t set) (scan v ts (rearm t.sfd set)) os tr tr' set' e in
    scan-Keeps v ts (rearm t.sfd set) set' os mid tr' rest x (ground (arith, h))

scan-Watched :
    (v : Iss) (ts : List Taken) (set set' : FdSet) (os : Os) (tr tr' : Trace)
    → scan v ts set os tr ≡ done set' tr'
    → Watched ts set'
unfolding scan
scan-Watched v [] set set' os tr tr' e = tt
scan-Watched v (t ∷ ts) set set' os tr tr' e =
    let (mid, _, rest) = >>-done (visit v t set) (scan v ts (rearm t.sfd set)) os tr tr' set' e in
    (
      scan-Keeps v ts (rearm t.sfd set) set' os mid tr' rest t.sfd (ground (arith, eqz_self t.sfd)),
      scan-Watched v ts (rearm t.sfd set) set' os mid tr' rest,
    )

-- A step that keeps the sockets taken over and what is in the set, or adds one socket to both.
record Grows (v v' : Iss) : Type 0 where
  same :
      (v'.taken ≡ v.taken)
      ⊎ ((t : Taken) × (v'.taken ≡ v.taken ++ t ∷ []) × (v'.readset t.sfd ≡ true))
  keeps : Keeps v.readset v'.readset

new_partner_same :
    (usfd : ℤ) (v v' : Iss) (os : Os) (tr tr' : Trace)
    → new_partner usfd v os tr ≡ done v' tr'
    → (v'.taken ≡ v.taken) × (v'.readset ≡ v.readset)
unfolding new_partner index
new_partner_same usfd v v' os tr tr' e = ground arith

check_services_same :
    (usfd : ℤ) (v v' : Iss) (os : Os) (tr tr' : Trace)
    → check_services usfd v os tr ≡ done v' tr'
    → (v'.taken ≡ v.taken) × (v'.readset usfd ≡ true)
check_services_same usfd v v' os tr tr' e = elim (Bool-cases (v.readset usfd)) [
  | inl ready ↦
      let (taken, set) = new_partner_same usfd v v' os tr tr' (ground arith) in
      (taken, ap (λ (f : FdSet). f usfd) set ∙ ready)
  | inr idle ↦
      let same =
        done_injective (record v { readset = fd_set usfd v.readset }) v' tr tr' (ground arith) in
      (
        ap (λ (w : Iss). w.taken) (sym same),
        ap (λ (w : Iss). w.readset usfd) (sym same) ∙ ground (arith, eqz_self usfd),
      )
]

take_over_ways :
    (v v' : Iss) (port : ℕ) (os : Os) (tr tr' : Trace)
    → take_over v port os tr ≡ done v' tr'
    → (v ≡ v') ⊎ ((fd : ℤ) × (enter v port fd ≡ v'))
unfolding take_over
take_over_ways v v' port os tr tr' e =
    let signalled : Trace =
      record {
        call = kill (partner v port).pid sigusr1;
        reply = os tr (kill (partner v port).pid sigusr1);
      }
      ∷ tr in
    let m = os signalled (recvmsg (partner v port).nusfd) in
    elim (Bool-cases (is_neg m.ret)) [
      | inl failed ↦ inl (ground arith)
      | inr passed ↦ inr (m.passed, ground arith)
    ]

take_over-Grows :
    (v v' : Iss) (port : ℕ) (os : Os) (tr tr' : Trace)
    → take_over v port os tr ≡ done v' tr'
    → Grows v v'
unfolding take_over
take_over-Grows v v' port os tr tr' e = elim (take_over_ways v v' port os tr tr' e) [
  | inl same ↦ record {
    same = inl (ap (λ (w : Iss). w.taken) (sym same));
    keeps = λ x h. ap (λ (w : Iss). w.readset x) (sym same) ∙ h;
  }
  | inr (fd, entered) ↦ record {
    same = inr (
      record { port = port; sfd = fd },
      ap (λ (w : Iss). w.taken) (sym entered),
      ap (λ (w : Iss). w.readset fd) (sym entered) ∙ ground (arith, eqz_self fd),
    );
    keeps = λ x h. ap (λ (w : Iss). w.readset x) (sym entered) ∙ ground (arith, h);
  }
]

from_tracer-Grows :
    (fd : ℤ) (v v' : Iss) (os : Os) (tr tr' : Trace)
    → from_tracer fd v os tr ≡ done v' tr'
    → Grows v v'
unfolding from_tracer
from_tracer-Grows fd v v' os tr tr' e =
    let r = os tr (read fd) in
    let mid : Trace = record { call = read fd; reply = r } ∷ tr in
    let next = filled r.ret r.passed v.next_port in
    let w : Iss = record v { next_port = next } in
    elim (Bool-cases (is_neg r.ret)) [
      | inl failed ↦
          let same : v ≡ v' = ground arith in
          record {
            same = inl (ap (λ (w : Iss). w.taken) (sym same));
            keeps = λ x h. ap (λ (w : Iss). w.readset x) (sym same) ∙ h;
          }
      | inr named ↦
          let (port, last, _, rest) =
            >>=-done (index next) (λ port. take_over w port) os mid tr' v' (ground arith) in
          let g = take_over-Grows w v' port os last tr' rest in
          record { same = g.same; keeps = g.keeps }
    ]

check_tracer-Grows :
    (fd : ℤ) (v v' : Iss) (os : Os) (tr tr' : Trace)
    → check_tracer fd v os tr ≡ done v' tr'
    → Grows v v' × (v'.readset fd ≡ true)
check_tracer-Grows fd v v' os tr tr' e = elim (Bool-cases (v.readset fd)) [
  | inl ready ↦ let g = from_tracer-Grows fd v v' os tr tr' (ground arith) in (g, g.keeps fd ready)
  | inr idle ↦
      let same : record v { readset = fd_set fd v.readset } ≡ v' =
        done_injective (record v { readset = fd_set fd v.readset }) v' tr tr' (ground arith) in
      (
        record {
          same = inl (ap (λ (w : Iss). w.taken) (sym same));
          keeps = λ x h. ap (λ (w : Iss). w.readset x) (sym same) ∙ ground (arith, h);
        },
        ap (λ (w : Iss). w.readset fd) (sym same) ∙ ground (arith, eqz_self fd),
      )
]

-- The sockets of the round are scanned; one that is added in the round is already in the set.
scan_taken-Watched :
    (old v v' : Iss) (os : Os) (tr tr' : Trace)
    → (v.taken ≡ old.taken)
      ⊎ ((t : Taken) × (v.taken ≡ old.taken ++ t ∷ []) × (v.readset t.sfd ≡ true))
    → scan_taken (length old.taken) v os tr ≡ done v' tr'
    → Watched v'.taken v'.readset × Keeps v.readset v'.readset
scan_taken-Watched old v v' os tr tr' g e =
    let (set, mid, run, last) =
      >>=-done (scan v (take (length old.taken) v.taken) v.readset)
        (λ set. pure (record v { readset = set })) os tr tr' v' e in
    let same : record v { readset = set } ≡ v' =
      done_injective (record v { readset = set }) v' mid tr' last in
    let seen = scan-Watched v (take (length old.taken) v.taken) v.readset set os tr mid run in
    let kept = scan-Keeps v (take (length old.taken) v.taken) v.readset set os tr mid run in
    let all : Watched v.taken set = elim g [
      | inl eq ↦
          subst (λ ts. Watched ts set)
            (ap (take (length old.taken)) eq ∙ take-length old.taken ∙ sym eq) seen
      | inr (t, eq, new) ↦
          subst (λ ts. Watched ts set) (sym eq)
            (All-append _ old.taken (t ∷ [])
              (subst (λ ts. Watched ts set)
                (ap (take (length old.taken)) eq ∙ take-append old.taken (t ∷ [])) seen)
              (kept t.sfd new, tt))
    ] in
    (
      subst (λ (w : Iss). Watched w.taken w.readset) same all,
      λ x h. ap (λ (w : Iss). w.readset x) (sym same) ∙ kept x h,
    )

-- When `select` reports a descriptor and the round returns to the loop, the set for the next `select`
-- holds the socket for services, the tracer's pipe and every socket taken over, one that came in this
-- round included.
pub round-Watched :
    (usfd fd : ℤ) (v v' : Iss) (r : ℤ) (ready : FdSet) (os : Os) (tr tr' : Trace)
    → ltz (pos 0) r ≡ true
    → round usfd fd v r ready os tr ≡ done v' tr'
    → Watched v'.taken v'.readset × (v'.readset usfd ≡ true) × (v'.readset fd ≡ true)
unfolding round
round-Watched usfd fd v v' r ready os tr tr' p e =
    let v0 : Iss = record v { readset = ready } in
    let (v1, tr1, first, e1) =
      >>=-done (check_services usfd v0)
        (λ v1. check_tracer fd v1 >>= λ v2. scan_taken (length v.taken) v2) os tr tr' v'
        (ground arith) in
    let (v2, tr2, second, third) =
      >>=-done (check_tracer fd v1) (λ v2. scan_taken (length v.taken) v2) os tr1 tr' v' e1 in
    let (same, has_usfd) = check_services_same usfd v0 v1 os tr tr1 first in
    let (g, has_fd) = check_tracer-Grows fd v1 v2 os tr1 tr2 second in
    let grown : (v2.taken ≡ v.taken)
        ⊎ ((t : Taken) × (v2.taken ≡ v.taken ++ t ∷ []) × (v2.readset t.sfd ≡ true)) =
      elim g.same [
        | inl eq ↦ inl (eq ∙ same)
        | inr (t, eq, new) ↦ inr (t, eq ∙ ap (λ ts. ts ++ t ∷ []) same, new)
      ] in
    let (all, kept) = scan_taken-Watched v v2 v' os tr2 tr' grown third in
    (all, kept usfd (g.keeps usfd has_usfd), kept fd has_fd)
