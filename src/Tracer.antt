-- ===== src/Tracer.antt =====
-- The tracer of the self-starting servers, RAW_Sockets_Assignment_20/Swyamabhoo_server_with_tracer/
-- tracer.c: the packets that it captures, and its answers to clients from the table of ports that the
-- services of service.c share with it; and how client.c lists these ports.
use computer_networks_assign.Prelude.{
  ℕ, zero, suc, ◌+◌, ◌-◌, ◌*◌, ◌/◌, ◌%◌, ◌^◌, Bool, true, false, ◌||◌, ◌&&◌, Option, none, some,
  List, [], ◌∷◌, ◌++◌, length, take, drop, get_elem?, set, ltb, ◌==◌, if◌then◌else◌,
}
use computer_networks_assign.Prelude.Int.{ℤ, is_neg}
use computer_networks_assign.Os.{
  recvfrom, sendto, write, perror, M, pure, ◌>>=◌, ◌>>◌, ask, call, exit, crash,
}
pub mod Firsts
pub mod Announcing
pub mod Entering
pub mod Listing
mod Cases

-- The bytes of an `int`, which is the residue of its value, in memory; the lowest comes first.
unfoldable pub int_bytes : ℕ → List ℕ
int_bytes n = n % 256 ∷ n / 256 % 256 ∷ n / 65536 % 256 ∷ n / 16777216 % 256 ∷ []

-- ETHERTYPE_IP
abbrev pub ethertype_ip : ℕ
ethertype_ip = 0x0800

-- A byte of the packet; a read behind it is not checked.
unfoldable pub byte_of : List ℕ → ℕ → M ℕ
byte_of packet i = elim (get_elem? packet i) [ none ↦ crash | some b ↦ pure b ]

-- `ntohs` of the field at `i`
unfoldable pub ntohs_of : List ℕ → ℕ → M ℕ
ntohs_of packet i = do
  high ← byte_of packet i
  low ← byte_of packet (i + 1)
  pure (high * 256 + low)

-- The array `sent`
abbrev pub Sent : Type 0
Sent = ℕ → Bool

abbrev pub mark : ℕ → Sent → Sent
mark port sent p = p == port || sent p

-- `if(!sent[port])`
unfoldable pub announce : ℤ → ℕ → Sent → M Sent
announce fd port sent =
    if sent port then pure sent else (call (write fd (int_bytes port)) >> pure (mark port sent))

-- A TCP packet. `ihl` is the lower half of the first byte behind the Ethernet header.
unfoldable pub tcp_packet : ℤ → List ℕ → Sent → M Sent
tcp_packet fd packet sent = do
  first ← byte_of packet 14
  port ← ntohs_of packet (14 + first % 16 * 4)
  announce fd port sent

unfoldable pub ip_packet : ℤ → List ℕ → Sent → M Sent
ip_packet fd packet sent = do
  protocol ← byte_of packet 23
  if protocol == 6 then tcp_packet fd packet sent else pure sent

unfoldable pub packet_handler : ℤ → List ℕ → Sent → M Sent
packet_handler fd packet sent = do
  ether_type ← ntohs_of packet 12
  if ether_type == ethertype_ip then ip_packet fd packet sent else pure sent

-- The calls of `packet_handler` that `pcap_loop` makes, for the packets that it captures.
unfoldable pub captured : ℤ → List (List ℕ) → Sent → M Sent
captured fd [] sent = pure sent
captured fd (packet ∷ packets) sent = packet_handler fd packet sent >>= captured fd packets

-- `func1`, where `pcap_loop` returned `r`.
unfoldable pub func1 : ℤ → List (List ℕ) → ℤ → Sent → M Sent
func1 fd packets r sent = do
  sent' ← captured fd packets sent
  if is_neg r then (call (perror "pcap_loop") >> exit 1) else pure sent'

-- The shared `struct shmstr`, with the 255 items of `ports`.
pub record Shmstr : Type 0 where
  pub ports : List ℕ
  pub ind : ℕ

-- What a service does at its start, `ptr->ports[ptr->ind] = …` and `ptr->ind++`; `none` is a store
-- behind the array. No semaphore is held.
unfoldable pub store_port : ℕ → Shmstr → Option Shmstr
store_port port s =
    if ltb s.ind (length s.ports) then some (record s { ports = set s.ports s.ind port }) else none

abbrev pub raise_ind : Shmstr → Shmstr
raise_ind s = record s { ind = s.ind + 1 }

unfoldable pub enter_port : ℕ → Shmstr → Option Shmstr
enter_port port s = elim (store_port port s) [ none ↦ none | some s' ↦ some (raise_ind s') ]

-- `for (int i = 0; i < ptr->ind; ++i)`, from `i` on, with `n` items left.
unfoldable pub send_ports : ℤ → List ℕ → ℕ → ℕ → M (Unit {0})
send_ports sfd ports i zero = pure tt
send_ports sfd ports i (suc n) = elim (get_elem? ports i) [
  | none ↦ crash
  | some port ↦ call (sendto sfd (int_bytes port)) >> send_ports sfd ports (i + 1) n
]

-- The residue of -1
abbrev pub end_mark : ℕ
end_mark = 2 ^ 32 - 1

-- One round of the loop of `func2`.
unfoldable pub func2_round : ℤ → Shmstr → M (Unit {0})
func2_round sfd s =
    call (recvfrom sfd) >> send_ports sfd s.ports 0 s.ind >> call (sendto sfd (int_bytes end_mark))

-- What `recvfrom` leaves in the 4 bytes of an `int`: a shorter datagram overwrites the first ones.
abbrev pub overwritten : List ℕ → List ℕ → List ℕ
overwritten text rpl = take 4 text ++ drop (length text) rpl

-- `rpl==-1`
abbrev pub is_end_mark : List ℕ → Bool
is_end_mark (a ∷ b ∷ c ∷ d ∷ []) = (a == 255) && (b == 255) && (c == 255) && (d == 255)
is_end_mark _ = false

-- The loop of client.c that lists the ports, for at most `fuel` datagrams: those that it prints, as
-- the bytes of `rpl`, and whether it has seen the end.
unfoldable pub list_ports : ℕ → ℤ → List ℕ → M (List (List ℕ) × Bool)
list_ports zero sfd rpl = pure ([], false)
list_ports (suc fuel) sfd rpl = do
  r ← ask (recvfrom sfd)
  if is_neg r.ret then (call (perror "recvfrom") >> exit 1) else do
    let rpl' = overwritten r.text rpl
    if is_end_mark rpl'
        then pure ([], true)
        else do more ← list_ports fuel sfd rpl'; pure (rpl' ∷ more.0, more.1)
