-- ===== src/Sniff/Cases.antt =====
-- Packets on the wire, and the theorems on the sniffer at them.
use computer_networks_assign.Prelude.{
  ℕ, zero, suc, ◌≡◌, refl, ap, some, List, [], ◌∷◌, ◌++◌, length, take, drop, replicate, All, Bool,
  true, ltb, ◌&&◌, arith,
}
use computer_networks_assign.Sniff.{print_data, print_char}
use computer_networks_assign.Sniff.Rows.{hexdump}
use computer_networks_assign.Sniff.Dump.{print_data-hexdump}
use computer_networks_assign.Sniff.Packets.{
  Item, title, print_ip_header, tcp_fields, print_tcp_packet, sniff,
}
use computer_networks_assign.Sniff.Payload.{three_dumps, print_tcp_packet-frame}
use computer_networks_assign.Sniff.Bounds.{IsBytes}
use computer_networks_assign.Sniff.Counting.{IsPacket, of_protocol, mistaken, sniff-counts}

abbrev hello : List ℕ
hello =
    72 ∷ 101 ∷ 108 ∷ 108 ∷ 111 ∷ 32 ∷ 87 ∷ 111 ∷ 114 ∷ 108 ∷ 100 ∷ 33 ∷ 32 ∷ 72 ∷ 105 ∷ 33 ∷ 10
    ∷ 127 ∷ []

print_data-hexdump_example :
    print_data (hello ++ hello) 18 ≡ some (hexdump (take 18 (hello ++ hello)))
print_data-hexdump_example = print_data-hexdump (hello ++ hello) 18 (omega arith)

-- The code 127 goes to the terminal as it is.
delete_printed : print_char 127 ≡ 127
delete_printed = refl

abbrev eth : List ℕ
eth = replicate 6 1 ++ (replicate 6 2 ++ (8 ∷ 0 ∷ []))

abbrev ip : ℕ → List ℕ
ip protocol =
    0x45 ∷ 0 ∷ 0 ∷ 43 ∷ 0 ∷ 1 ∷ 0 ∷ 0 ∷ 64 ∷ protocol ∷ 0 ∷ 0 ∷ 127 ∷ 0 ∷ 0 ∷ 1 ∷ 127 ∷ 0 ∷ 0 ∷ 1
    ∷ []

abbrev tcp : List ℕ
tcp =
    0x1f ∷ 0x90 ∷ 0x1f ∷ 0x95 ∷ 0 ∷ 0 ∷ 0 ∷ 1 ∷ 0 ∷ 0 ∷ 0 ∷ 2 ∷ 0x50 ∷ 0x18 ∷ 16 ∷ 0 ∷ 0 ∷ 0 ∷ 0 ∷ 0
    ∷ []

abbrev payload : List ℕ
payload = 97 ∷ 98 ∷ 99 ∷ []

abbrev tcp_frame : List ℕ
tcp_frame = eth ++ (ip 6 ++ (tcp ++ payload))

print_tcp_packet-frame_example :
    print_tcp_packet (tcp_frame ++ replicate 5 7) 57
    ≡ some (
        title "TCP Packet"
        ∷ (print_ip_header (eth ++ ip 6)
            ++ (tcp_fields tcp
                ++ three_dumps "TCP Header"
                    (take 20 tcp_frame)
                    (take 20 (drop 20 tcp_frame))
                    payload)))
print_tcp_packet-frame_example =
    print_tcp_packet-frame eth (ip 6) tcp payload (replicate 5 7) refl refl (omega arith) refl
      (omega arith)

IsBytes-zeros : (n : ℕ) → IsBytes (replicate n 0)
IsBytes-zeros zero = tt
IsBytes-zeros (suc n) = (omega arith, IsBytes-zeros n)

length-zeros : (n : ℕ) → length {A = ℕ} (replicate n 0) ≡ n
length-zeros zero = refl
length-zeros (suc n) = ap suc (length-zeros n)

abbrev are_bytes : List ℕ → Bool
are_bytes [] = true
are_bytes (b ∷ bs) = ltb b 256 && are_bytes bs

are_bytes-IsBytes : (bs : List ℕ) → are_bytes bs ≡ true → IsBytes bs
are_bytes-IsBytes [] h = tt
are_bytes-IsBytes (b ∷ bs) h = (ground arith, are_bytes-IsBytes bs (ground arith))

-- A frame of ARP with a 6 in byte 23
abbrev arp_frame : List ℕ
arp_frame = replicate 12 1 ++ (8 ∷ 6 ∷ (replicate 9 0 ++ (6 ∷ replicate 20 0)))

abbrev wire : List (List ℕ)
wire = arp_frame ∷ tcp_frame ∷ (eth ++ (ip 17 ++ replicate 8 0)) ∷ tcp_frame ∷ []

wire-IsPacket : All IsPacket wire
wire-IsPacket = (
  (are_bytes-IsBytes arp_frame refl, omega arith, omega arith),
  (
    (are_bytes-IsBytes tcp_frame refl, omega arith, omega arith),
    (
      (are_bytes-IsBytes (eth ++ (ip 17 ++ replicate 8 0)) refl, omega arith, omega arith),
      ((are_bytes-IsBytes tcp_frame refl, omega arith, omega arith), tt),
    ),
  ),
)

sniff-counts_example :
    (out : List Item) × (sniff (replicate 65536 0) wire (record { tcp = 0; udp = 0; total = 0 })
      ≡ some (record { tcp = 3; udp = 1; total = 4 }, out))
unfolding of_protocol mistaken
sniff-counts_example =
    sniff-counts wire (replicate 65536 0) (length-zeros 65536) (IsBytes-zeros 65536) wire-IsPacket
      (omega arith)
