-- ===== src/Tracer/Cases.antt =====
-- Packets, tables and clients of the tracer, and its theorems at them.
use computer_networks_assign.Prelude.{
  ℕ, ◌≡◌, refl, Bool, true, false, some, none, List, [], ◌∷◌, ◌++◌, map, get_elem?, length,
  replicate, arith,
}
use computer_networks_assign.Prelude.Int.{pos, minus_one}
use computer_networks_assign.Os.{trace_of, Trace, Os, done}
use computer_networks_assign.Tracer.{
  int_bytes, captured, Shmstr, store_port, enter_port, func2_round, list_ports,
}
use computer_networks_assign.Tracer.Firsts.{firsts, occurs}
use computer_networks_assign.Tracer.Announcing.{source_ports, written, captured-firsts}
use computer_networks_assign.Tracer.Entering.{enter_ports, datagrams}
use computer_networks_assign.Tracer.Listing.{taken, list_ports-enter_ports}

-- A TCP packet from a port, given by its two bytes, with an IP header of 20 bytes; and a packet that is
-- not one of IP.
abbrev tcp_from : ℕ → ℕ → List ℕ
tcp_from high low =
    replicate 12 0 ++ 8 ∷ 0 ∷ 69 ∷ replicate 8 0 ++ 6 ∷ replicate 10 0 ++ high ∷ low ∷ []

abbrev arp : List ℕ
arp = replicate 12 0 ++ 8 ∷ 6 ∷ []

abbrev capture : List (List ℕ)
capture = tcp_from 31 65 ∷ arp ∷ tcp_from 31 64 ∷ tcp_from 31 65 ∷ []

abbrev silent : Os
silent tr c = record { ret = pos 0; passed = pos 0; text = [] }

captured_run : source_ports capture ≡ 8001 ∷ 8000 ∷ 8001 ∷ []
unfolding source_ports
captured_run = refl

captured-firsts_example :
    (sent : ℕ → Bool) × (tr' : Trace) × (captured (pos 5) capture (λ p. false) silent []
      ≡ done sent tr')
    × (written (pos 5) tr' ≡ written (pos 5) [] ++ map int_bytes (firsts (source_ports capture)))
    × ((p : ℕ) → sent p ≡ occurs p (source_ports capture))
captured-firsts_example = captured-firsts (pos 5) capture silent [] (
  (omega arith, λ e. ground arith, λ e. ground arith),
  (
    (omega arith, λ e. ground arith, λ e. ground arith),
    (
      (omega arith, λ e. ground arith, λ e. ground arith),
      ((omega arith, λ e. ground arith, λ e. ground arith), tt),
    ),
  ),
)

abbrev empty : Shmstr
empty = record { ports = replicate 255 0; ind = 0 }

abbrev two : Shmstr
two = record { ports = 8000 ∷ 8001 ∷ replicate 253 0; ind = 2 }

-- The network between the tracer at descriptor 6 and the client at descriptor 3.
abbrev network : Os
network tr c =
    elim (get_elem? (datagrams (pos 6) (trace_of (func2_round (pos 6) two silent [])))
      (taken (pos 3) tr)) [
        | none ↦ record { ret = minus_one; passed = pos 0; text = [] }
        | some d ↦ record { ret = pos (length d); passed = pos 0; text = d }
      ]

list_ports-enter_ports_example :
    (func2_round (pos 6) two silent [] ≡ done tt (trace_of (func2_round (pos 6) two silent [])))
    × (ctr' : Trace) × (list_ports 3 (pos 3) (0 ∷ 0 ∷ 0 ∷ 0 ∷ []) network []
        ≡ done (map int_bytes (8000 ∷ 8001 ∷ []), true) ctr')
unfolding enter_ports enter_port store_port taken
list_ports-enter_ports_example =
    list_ports-enter_ports (8000 ∷ 8001 ∷ []) empty two (pos 6) (pos 3) (0 ∷ 0 ∷ 0 ∷ 0 ∷ []) silent
      network [] refl refl (omega arith, (omega arith, tt)) refl refl (λ tr d e. ground (arith, e))
