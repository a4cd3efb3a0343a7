-- ===== src/Nitnetd/Cases.antt =====
-- Two services, a kernel on which forks succeed, and the theorems of the limited server there.
use computer_networks_assign.Prelude.{◌≡◌, refl, true, false, [], ◌∷◌}
use computer_networks_assign.Prelude.Int.{ℤ, pos, ltz}
use computer_networks_assign.Os.{trace_of, Call, accept, fork, Os, Outcome, done, exited, crashed}
use computer_networks_assign.Inetd.{Service, FdSet, serve_udp}
use computer_networks_assign.Nitnetd.{
  Sems, initial, occupied, serve_tcp, scan, forward, start, parent,
}
use computer_networks_assign.Nitnetd.Limits.{sends, scan_never_forwards}

abbrev answer : Call → ℤ
answer (accept fd) = pos 40
answer fork = pos 99
answer c = pos 0

-- A child that ends by itself leaves a status whose low seven bits are 0.
abbrev kernel : Os
kernel tr c = record { ret = answer c; passed = pos 0; text = b'p' ∷ [] }

abbrev value_of : {A : Type 0} → A → Outcome A → A
value_of v (done w tr) = w
value_of v (exited n tr) = v
value_of v (crashed tr) = v

abbrev service : Service
service = record { is_tcp = true; fd = pos 3; port = 8; operation = b'.' ∷ b'/' ∷ b'c' ∷ [] }

abbrev other : Service
other = record { is_tcp = false; fd = pos 7; port = 9; operation = b'.' ∷ b'/' ∷ b'e' ∷ [] }

abbrev ready : FdSet
ready fd = ltz fd (pos 8)

abbrev scanned : Outcome (FdSet × Sems)
scanned = scan (pos 5) 0 initial (service ∷ other ∷ service ∷ []) ready kernel []

abbrev result : FdSet × Sems
result = value_of (ready, initial) scanned

scan_never_forwards_example : (result.1 ≡ initial) × (sends (trace_of scanned) ≡ sends [])
unfolding scan serve_tcp serve_udp forward start parent occupied initial
scan_never_forwards_example =
    scan_never_forwards (pos 5) (service ∷ other ∷ service ∷ []) ready result kernel []
      (trace_of scanned) ((λ tr. refl), (λ tr p. refl)) refl

-- The first service with no place left.
abbrev full : Sems
full = record {
  s1 = record { max = pos 2; count = pos 0 };
  s2 = record { max = pos 3; count = pos 3 };
}

abbrev served : Outcome Sems
served = serve_tcp (pos 5) 0 full service kernel []
