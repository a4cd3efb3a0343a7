-- ===== src/Iss/Cases.antt =====
-- Two services whose sockets are taken over, and the theorems there.
use computer_networks_assign.Prelude.{List, arith, ◌≡◌, refl, true, [], ◌∷◌, ◌==◌, if◌then◌else◌}
use computer_networks_assign.Prelude.Int.{ℤ, pos, ltz}
use computer_networks_assign.Os.{trace_of, Call, accept, Os, Outcome, done, exited, crashed}
use computer_networks_assign.Inetd.{FdSet}
use computer_networks_assign.Iss.{Iss, partner, pass_on, scan, round}
use computer_networks_assign.Iss.Registry.{Registration, Registered}
use computer_networks_assign.Iss.Routing.{routed, routed-scan}

abbrev before : Iss
before = record {
  partners = record { nusfd = pos 7; pid = pos 70 } ∷ record { nusfd = pos 8; pid = pos 80 } ∷ [];
  taken = record { port = 5000; sfd = pos 11 } ∷ record { port = 6000; sfd = pos 12 } ∷ [];
  next_port = pos 0;
  map = λ port. if port == 6000 then 1 else 0;
  readset = λ fd. true;
  maxfp1 = pos 12;
}

abbrev answer : Call → ℤ
answer (accept fd) = pos 40
answer c = pos 4

abbrev kernel : Os
kernel tr c = record { ret = answer c; passed = pos 13; text = [] }

abbrev value_of : {A : Type 0} → A → Outcome A → A
value_of v (done w tr) = w
value_of v (exited n tr) = v
value_of v (crashed tr) = v

-- The tracer's pipe, 4, and the second socket are ready; the pipe names port 13.
abbrev ready : FdSet
ready fd = if ltz fd (pos 5) then true else ltz (pos 11) fd

abbrev after : Outcome Iss
after = round (pos 3) (pos 4) before (pos 3) ready kernel []

abbrev scanned : Outcome FdSet
scanned = scan before before.taken ready kernel []

-- The two services have registered for these ports.
abbrev both : List Registration
both = record { port = 6000; nusfd = pos 8 } ∷ record { port = 5000; nusfd = pos 7 } ∷ []

before-Registered : Registered before both
before-Registered = record { places = λ port. ground arith; entries = refl }

routed-scan_example : routed both before.taken (trace_of scanned) ≡ true
unfolding scan pass_on partner routed
routed-scan_example =
    routed-scan before both before.taken ready (value_of ready scanned) kernel [] (trace_of scanned)
      before-Registered refl refl
