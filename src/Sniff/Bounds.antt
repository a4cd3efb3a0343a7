-- ===== src/Sniff/Bounds.antt =====
-- One packet: what is printed of it lies within the buffer, and it is counted.
use computer_networks_assign.Prelude.{
  ℕ, zero, suc, ◌+◌, ◌-◌, ◌*◌, ◌/◌, ◌^◌, ◌<◌, ◌≤◌, ◌≡◌, refl, Bool, true, false, some, List, [],
  ◌∷◌, length, drop, All, ◌==◌, if◌then◌else◌, Bool-cases, inl, inr, arith,
}
use computer_networks_assign.Sniff.Packets.{
  Item, u8, ip_length, print_tcp_packet, print_udp_packet, sizeof_udph, Counts, show,
  process_packet,
}
use computer_networks_assign.Sniff.Payload.{dumps-three_dumps, tcp_step, udp_step}

-- Bytes
abbrev pub IsBytes : List ℕ → Type 0
IsBytes bs = All (λ b. b < 256) bs

u8-IsBytes : (bs : List ℕ) (i : ℕ) → IsBytes bs → u8 bs i < 256
u8-IsBytes [] i h = omega arith
u8-IsBytes (b ∷ bs) zero h = h.0
u8-IsBytes (b ∷ bs) (suc i) h = u8-IsBytes bs i h.1

pub drop-IsBytes : (n : ℕ) (bs : List ℕ) → IsBytes bs → IsBytes (drop n bs)
drop-IsBytes zero bs h = h
drop-IsBytes (suc n) [] h = h
drop-IsBytes (suc n) (b ∷ bs) h = drop-IsBytes n bs h.1

print_tcp_packet_total :
    (buffer : List ℕ) (size : ℕ)
    → length buffer ≡ 65536
    → IsBytes buffer
    → size ≤ 65536
    → (out : List Item) × (print_tcp_packet buffer size ≡ some out)
print_tcp_packet_total buffer size l h s =
    let doff =
      u8-IsBytes (drop (ip_length buffer + 14) buffer) 12
        (drop-IsBytes (ip_length buffer + 14) buffer h) in
    let n = u8 (drop (ip_length buffer + 14) buffer) 12 / 16 * 4 in
    (
      _,
      tcp_step buffer (drop (ip_length buffer + 14) buffer) (ip_length buffer) n size _ refl refl
          refl
          (dumps-three_dumps "TCP Header" buffer (ip_length buffer) n (14 + ip_length buffer + n)
            size (omega arith) (omega arith) (omega arith)),
    )

print_udp_packet_total :
    (buffer : List ℕ) (size : ℕ)
    → length buffer ≡ 65536
    → size ≤ 65536
    → (out : List Item) × (print_udp_packet buffer size ≡ some out)
print_udp_packet_total buffer size l s = (
  _,
  udp_step buffer (drop (ip_length buffer + 14) buffer) (ip_length buffer) size _ refl refl (
      dumps-three_dumps "UDP Header" buffer (ip_length buffer) sizeof_udph
        (14 + ip_length buffer + sizeof_udph) size (omega arith) (omega arith) (omega arith)),
)

-- 1 for a byte that is the protocol
abbrev pub one : Bool → ℕ
one b = if b then 1 else 0

pub process_packet_counts :
    (buffer : List ℕ) (size : ℕ) (c : Counts)
    → length buffer ≡ 65536
    → IsBytes buffer
    → size ≤ 65536
    → c.total < 2 ^ 31 - 1
    → c.tcp ≤ c.total
    → c.udp ≤ c.total
    → (out : List Item) × (process_packet buffer size c
        ≡ some (
          record {
            tcp = c.tcp + one (u8 buffer 23 == 6);
            udp = c.udp + one (u8 buffer 23 == 17);
            total = c.total + 1;
          },
          out,
        ))
unfolding process_packet
process_packet_counts buffer size c l h s t p q = elim (Bool-cases (u8 buffer 23 == 6)) [
  | inl six ↦ let (out, e) = print_tcp_packet_total buffer size l h s in (_, counts_tcp out six e)
  | inr not_six ↦ elim (Bool-cases (u8 buffer 23 == 17)) [
    | inl seventeen ↦
        let (out, e) = print_udp_packet_total buffer size l s in
        (_, counts_udp out not_six seventeen e)
    | inr other ↦ (_, counts_none not_six other)
  ]
]
  where
    after : Counts
    after = record {
      tcp = c.tcp + one (u8 buffer 23 == 6);
      udp = c.udp + one (u8 buffer 23 == 17);
      total = c.total + 1;
    }

    counts_tcp :
        (out : List Item)
        → u8 buffer 23 == 6 ≡ true
        → print_tcp_packet buffer size ≡ some out
        → process_packet buffer size c ≡ show out after
    counts_tcp out six e = ground arith

    counts_udp :
        (out : List Item)
        → u8 buffer 23 == 6 ≡ false
        → u8 buffer 23 == 17 ≡ true
        → print_udp_packet buffer size ≡ some out
        → process_packet buffer size c ≡ show out after
    counts_udp out six e = ground arith

    counts_none :
        u8 buffer 23 == 6 ≡ false
        → u8 buffer 23 == 17 ≡ false
        → process_packet buffer size c ≡ show [] after
    counts_none six e = ground arith
