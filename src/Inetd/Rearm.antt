-- ===== src/Inetd/Rearm.antt =====
-- No service is lost to `select`: each round of the loop puts every service back into the set.
use mathlib.Core.Path.{subst}
use computer_networks_assign.Prelude.{ap, sym, ◌∙◌, ◌≡◌, true, List, [], ◌∷◌, All, arith}
use computer_networks_assign.Prelude.Int.{ℤ, pos, ltz, eqz_self}
use computer_networks_assign.Os.{Trace, Os, done, pure}
use computer_networks_assign.Os.Bind.{done_injective, >>-done, >>=-done}
use computer_networks_assign.Inetd.{Service, Server, FdSet, scan, round, visit, rearm, scan_all}

-- Every service is in the set.
abbrev pub Watches : List Service → FdSet → Type 0
Watches ss set = All (λ s. set s.fd ≡ true) ss

rearm_keeps : (s : Service) (set : FdSet) (x : ℤ) → set x ≡ true → rearm s set x ≡ true
rearm_keeps s set x h = ground arith

rearm_sets : (s : Service) (set : FdSet) → rearm s set s.fd ≡ true
rearm_sets s set = ground (arith, eqz_self s.fd)

pub scan_keeps :
    (ss : List Service) (set set' : FdSet) (os : Os) (tr tr' : Trace) (x : ℤ)
    → scan ss set os tr ≡ done set' tr'
    → set x ≡ true
    → set' x ≡ true
unfolding scan
scan_keeps [] set set' os tr tr' x e h =
    ap (λ (f : FdSet). f x) (sym (done_injective set set' tr tr' e)) ∙ h
scan_keeps (s ∷ ss) set set' os tr tr' x e h =
    let (mid, _, rest) = >>-done (visit s set) (scan ss (rearm s set)) os tr tr' set' e in
    scan_keeps ss (rearm s set) set' os mid tr' x rest (rearm_keeps s set x h)

pub scan-Watches :
    (ss : List Service) (set set' : FdSet) (os : Os) (tr tr' : Trace)
    → scan ss set os tr ≡ done set' tr'
    → Watches ss set'
unfolding scan
scan-Watches [] set set' os tr tr' e = tt
scan-Watches (s ∷ ss) set set' os tr tr' e =
    let (mid, _, rest) = >>-done (visit s set) (scan ss (rearm s set)) os tr tr' set' e in
    (
      scan_keeps ss (rearm s set) set' os mid tr' s.fd rest (rearm_sets s set),
      scan-Watches ss (rearm s set) set' os mid tr' rest,
    )

-- When `select` reports a descriptor, and the round returns to the loop, the set for the next
-- `select` holds every service, whichever of them `select` had left in it.
round-Watches :
    (v v' : Server) (r : ℤ) (ready : FdSet) (os : Os) (tr tr' : Trace)
    → ltz (pos 0) r ≡ true
    → round v r ready os tr ≡ done v' tr'
    → Watches v.services v'.readset × (v'.services ≡ v.services)
unfolding round
round-Watches v v' r ready os tr tr' h e =
    let scanned : scan_all v ready os tr ≡ done v' tr' = ground arith in
    let (set, mid, run, last) =
      >>=-done (scan v.services ready) (λ set. pure (record v { readset = set })) os tr tr' v'
        scanned in
    let same = done_injective (record v { readset = set }) v' mid tr' last in
    (
      subst (λ (w : Server). Watches v.services w.readset) same
          (scan-Watches v.services ready set os tr mid run),
      ap (λ (w : Server). w.services) (sym same),
    )
