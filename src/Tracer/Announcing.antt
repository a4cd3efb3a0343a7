-- ===== src/Tracer/Announcing.antt =====
-- The tracer announces each source port of a TCP packet once, in the order in which they are first
-- seen.
use computer_networks_assign.Prelude.{
  append-nil, append_assoc, ℕ, suc, ◌+◌, ◌*◌, ◌%◌, ◌≤◌, ◌≡◌, refl, ap, sym, ◌∙◌, Bool, true, false,
  ◌&&◌, ◌||◌, some, none, List, [], ◌∷◌, ◌++◌, map, length, get_elem?, get_elem?_below, ◌==◌,
  if◌then◌else◌, Bool-cases, inl, inr, All, arith,
}
use computer_networks_assign.Prelude.Int.{ℤ, eqz, eqz_self}
use computer_networks_assign.Os.{Call, write, Trace, Os, Outcome, done}
use computer_networks_assign.Tracer.Firsts.{
  firsts, occurs, keep, keep_all, fresh, fresh_sent, fresh_unsent, occurs_sent, occurs-mark,
}
use computer_networks_assign.Tracer.{
  int_bytes, byte_of, ntohs_of, Sent, mark, announce, tcp_packet, ip_packet, packet_handler,
  captured,
}

-- A byte of a packet that is long enough.
abbrev byte_at : List ℕ → ℕ → ℕ
byte_at packet i = elim (get_elem? packet i) [ none ↦ 0 | some b ↦ b ]

-- What the fields of a packet say: whether it is one of IP, and of TCP, and where its TCP header is.
abbrev is_ip : List ℕ → Bool
is_ip packet = byte_at packet 12 * 256 + byte_at packet 13 == 0x0800

abbrev is_tcp : List ℕ → Bool
is_tcp packet = is_ip packet && (byte_at packet 23 == 6)

abbrev tcp_start : List ℕ → ℕ
tcp_start packet = 14 + byte_at packet 14 % 16 * 4

abbrev source_port : List ℕ → ℕ
source_port packet = byte_at packet (tcp_start packet) * 256 + byte_at packet (tcp_start packet + 1)

-- The source ports of the TCP packets.
unfoldable pub source_ports : List (List ℕ) → List ℕ
source_ports [] = []
source_ports (packet ∷ packets) =
    if is_tcp packet then source_port packet ∷ source_ports packets else source_ports packets

-- The fields that are looked at are within what was captured.
abbrev pub IsWhole : List ℕ → Type 0
IsWhole packet =
    (14 ≤ length packet)
    × ((is_ip packet ≡ true) → 24 ≤ length packet)
    × ((is_tcp packet ≡ true) → tcp_start packet + 2 ≤ length packet)

-- What was written to `fd`, the oldest first.
abbrev writing : ℤ → Call → List (List ℕ) → List (List ℕ)
writing fd (write g bytes) ws = if eqz g fd then ws ++ bytes ∷ [] else ws
writing fd c ws = ws

unfoldable pub written : ℤ → Trace → List (List ℕ)
written fd [] = []
written fd (e ∷ tr) = writing fd e.call (written fd tr)

byte_of_below :
    (packet : List ℕ) (i : ℕ) (os : Os) (tr : Trace)
    → suc i ≤ length packet
    → byte_of packet i os tr ≡ done (byte_at packet i) tr
unfolding byte_of
byte_of_below packet i os tr h = let (b, e) = get_elem?_below packet i h in ground (arith, e)

ntohs_of_below :
    (packet : List ℕ) (i : ℕ) (os : Os) (tr : Trace)
    → i + 2 ≤ length packet
    → ntohs_of packet i os tr ≡ done (byte_at packet i * 256 + byte_at packet (i + 1)) tr
unfolding ntohs_of
ntohs_of_below packet i os tr h = ground (
  arith,
  byte_of_below packet i os tr (omega arith),
  byte_of_below packet (i + 1) os tr (omega arith),
)

-- One packet, for its port.
packet_handler_lem :
    (fd : ℤ) (packet : List ℕ) (sent : Sent) (os : Os) (tr : Trace)
    → IsWhole packet
    → packet_handler fd packet sent os tr
      ≡ (if is_tcp packet then announce fd (source_port packet) sent os tr else done sent tr)
unfolding packet_handler ip_packet tcp_packet
packet_handler_lem fd packet sent os tr (short, ip, tcp) =
    let type = ntohs_of_below packet 12 os tr (omega arith) in
    elim (Bool-cases (is_ip packet)) [
      | inr other ↦ ground (arith, type)
      | inl of_ip ↦
          let protocol = byte_of_below packet 23 os tr (ground (arith, ip)) in
          elim (Bool-cases (byte_at packet 23 == 6)) [
            | inr other ↦ ground (arith, type, protocol)
            | inl six ↦
                let fits : tcp_start packet + 2 ≤ length packet = tcp (ground arith) in
                ground (
                  arith,
                  type,
                  protocol,
                  byte_of_below packet 14 os tr (omega arith),
                  ntohs_of_below packet (tcp_start packet) os tr fits,
                )
          ]
    ]

-- A run over the packets that returns, with what it wrote and the array that it leaves.
Announced : ℤ → List ℕ → Sent → Outcome Sent → Trace → Type 0
Announced fd ports sent run tr =
    (sent' : Sent) × (tr' : Trace) × (run ≡ done sent' tr')
    × (written fd tr' ≡ written fd tr ++ map int_bytes (fresh sent (firsts ports)))
    × ((p : ℕ) → sent' p ≡ (sent p || occurs p ports))

none_fresh : (sent : Sent) → fresh sent (firsts []) ≡ []
unfolding fresh firsts keep
none_fresh sent = refl

none_occurs : (sent : Sent) (p : ℕ) → sent p ≡ (sent p || occurs p [])
unfolding occurs
none_occurs sent p = ground arith

written_one :
    (fd : ℤ) (bytes : List ℕ) (os : Os) (tr : Trace)
    → written fd (record { call = write fd bytes; reply = os tr (write fd bytes) } ∷ tr)
      ≡ written fd tr ++ bytes ∷ []
unfolding written
written_one fd bytes os tr = ground (arith, eqz_self fd)

source_ports_tcp :
    (packet : List ℕ) (packets : List (List ℕ))
    → is_tcp packet ≡ true
    → source_ports (packet ∷ packets) ≡ source_port packet ∷ source_ports packets
unfolding source_ports
source_ports_tcp packet packets h = ground arith

captured-Announced :
    (fd : ℤ) (packets : List (List ℕ)) (sent : Sent) (os : Os) (tr : Trace)
    → All IsWhole packets
    → Announced fd (source_ports packets) sent (captured fd packets sent os tr) tr
unfolding Announced captured source_ports announce
captured-Announced fd [] sent os tr w = (
  sent,
  tr,
  refl,
  sym (ap (λ ps. written fd tr ++ map int_bytes ps) (none_fresh sent) ∙ append-nil (written fd tr)),
  none_occurs sent,
)
captured-Announced fd (packet ∷ packets) sent os tr (w, ws) =
    let one = packet_handler_lem fd packet sent os tr w in
    let port = source_port packet in
    let ports = source_ports packets in
    elim (Bool-cases (is_tcp packet)) [
      | inr other ↦
          let (sent', tr', run, out, table) = captured-Announced fd packets sent os tr ws in
          (
            sent',
            tr',
            ground (arith, one, run),
            ground (arith, other, out),
            λ p. table p ∙ ground (arith, other),
          )
      | inl tcp ↦ elim (Bool-cases (sent port)) [
        | inl known ↦
            let (sent', tr', run, out, table) = captured-Announced fd packets sent os tr ws in
            (
              sent',
              tr',
              ground (arith, one, run),
              ground (arith, tcp, out, fresh_sent sent port ports known),
              λ p. table p ∙ occurs_sent sent p port ports known ∙ ground (arith, tcp),
            )
        | inr new ↦
            let c = write fd (int_bytes port) in
            let mid : Trace = record { call = c; reply = os tr c } ∷ tr in
            let (sent', tr', run, out, table) =
              captured-Announced fd packets (mark port sent) os mid ws in
            (
              sent',
              tr',
              ground (arith, one, run),
              out
                  ∙ ap (λ ws. ws ++ map int_bytes (fresh (mark port sent) (firsts ports)))
                      (written_one fd (int_bytes port) os tr)
                  ∙ append_assoc (written fd tr) (int_bytes port ∷ [])
                      (map int_bytes (fresh (mark port sent) (firsts ports)))
                  ∙ ap (λ ps. written fd tr ++ map int_bytes ps)
                      (sym (
                        ap (λ l. fresh sent (firsts l)) (source_ports_tcp packet packets tcp)
                        ∙ fresh_unsent sent port ports new)),
              λ p. table p ∙ occurs-mark sent p port ports ∙ ground (arith, tcp),
            )
      ]
    ]

-- Over any packets of which the fields that are looked at were captured, the handler does not read
-- behind a packet; it writes the source ports of the TCP packets to the pipe, each one once, in the
-- order in which they first occur, as the bytes of an `int`; and `sent` holds exactly these ports.
pub captured-firsts :
    (fd : ℤ) (packets : List (List ℕ)) (os : Os) (tr : Trace)
    → All IsWhole packets
    → (sent : Sent) × (tr' : Trace) × (captured fd packets (λ p. false) os tr ≡ done sent tr')
      × (written fd tr' ≡ written fd tr ++ map int_bytes (firsts (source_ports packets)))
      × ((p : ℕ) → sent p ≡ occurs p (source_ports packets))
unfolding Announced fresh
captured-firsts fd packets os tr w =
    let (sent, tr', run, out, table) = captured-Announced fd packets (λ p. false) os tr w in
    let all = keep_all (λ p. true) (firsts (source_ports packets)) (λ p. refl) in
    (sent, tr', run, out ∙ ap (λ ps. written fd tr ++ map int_bytes ps) all, table)
