-- ===== src/Sniff/Counting.antt =====
-- The loop of the sniffer: it stays within its buffer, and its counters are right.
use computer_networks_assign.Prelude.{
  ℕ, ◌+◌, ◌^◌, ◌<◌, ◌≤◌, ◌≡◌, ap, ◌∙◌, Bool, true, false, not, ◌&&◌, some, List, [], ◌∷◌, ◌++◌,
  length, drop, All, All-append, length-append, length-drop, ◌==◌, arith,
}
use computer_networks_assign.Sniff.Packets.{Item, title, u8, Counts, process_packet, sniff}
use computer_networks_assign.Sniff.Fields.{u8-append}
use computer_networks_assign.Sniff.Bounds.{IsBytes, drop-IsBytes, one, process_packet_counts}

-- The Ethernet type of the frame is that of IPv4, 0x0800.
abbrev pub is_ipv4 : List ℕ → Bool
is_ipv4 p = (u8 p 12 == 8) && (u8 p 13 == 0)

-- How many packets are IPv4 packets of the protocol.
unfoldable pub of_protocol : ℕ → List (List ℕ) → ℕ
of_protocol k [] = 0
of_protocol k (p ∷ ps) = one (is_ipv4 p && (u8 p 23 == k)) + of_protocol k ps

-- How many frames of another type have the number of the protocol at the place where IPv4 has it.
unfoldable pub mistaken : ℕ → List (List ℕ) → ℕ
mistaken k [] = 0
mistaken k (p ∷ ps) = one (not (is_ipv4 p) && (u8 p 23 == k)) + mistaken k ps

-- How many frames have the number of the protocol there, whatever their type.
unfoldable with_protocol : ℕ → List (List ℕ) → ℕ
with_protocol k [] = 0
with_protocol k (p ∷ ps) = one (u8 p 23 == k) + with_protocol k ps

-- Bytes that `recvfrom` can give, with the header of IP up to its protocol.
abbrev pub IsPacket : List ℕ → Type 0
IsPacket p = IsBytes p × (24 ≤ length p) × (length p ≤ 65536)

with_protocol_lem :
    (k : ℕ) (ps : List (List ℕ)) → with_protocol k ps ≡ of_protocol k ps + mistaken k ps
unfolding with_protocol of_protocol mistaken
with_protocol_lem k [] = omega arith
with_protocol_lem k (p ∷ ps) = ground (arith, with_protocol_lem k ps)

sniff_step :
    (buffer p : List ℕ) (ps : List (List ℕ)) (c c' c'' : Counts) (out more : List Item)
    → process_packet (p ++ drop (length p) buffer) (length p) c ≡ some (c', out)
    → sniff (p ++ drop (length p) buffer) ps c' ≡ some (c'', more)
    → sniff buffer (p ∷ ps) c ≡ some (c'', out ++ more)
unfolding sniff
sniff_step buffer p ps c c' c'' out more a b = ground (arith, a, b)

one_le : (b : Bool) → one b ≤ 1
one_le true = omega arith
one_le false = omega arith

buffer_after :
    (packet buffer : List ℕ)
    → length buffer ≡ 65536
    → IsBytes buffer
    → IsBytes packet
    → length packet ≤ 65536
    → (length (packet ++ drop (length packet) buffer) ≡ 65536)
      × IsBytes (packet ++ drop (length packet) buffer)
buffer_after packet buffer l h g s =
    let a = length-append packet (drop (length packet) buffer) in
    let d = length-drop (length packet) buffer in
    (
      omega arith,
      All-append (λ b. b < 256) packet (drop (length packet) buffer) g
          (drop-IsBytes (length packet) buffer h),
    )

counts_eq :
    {a a' b b' c c' : ℕ}
    → a ≡ a'
    → b ≡ b'
    → c ≡ c'
    → ◌≡◌ {A = Counts}
        (record { tcp = a; udp = b; total = c })
        (record { tcp = a'; udp = b'; total = c' })
counts_eq p q r = cc

plus_one :
    (n k : ℕ) (packet : List ℕ) (packets : List (List ℕ)) {b : ℕ}
    → b ≡ u8 packet 23
    → n + one (b == k) + with_protocol k packets ≡ n + with_protocol k (packet ∷ packets)
unfolding with_protocol
plus_one n k packet packets e = ap (λ v. n + one (v == k) + with_protocol k packets) e ∙ omega arith

no_packets :
    (buffer : List ℕ) (c : Counts)
    → sniff buffer [] c
      ≡ some (
        record {
          tcp = c.tcp + with_protocol 6 [];
          udp = c.udp + with_protocol 17 [];
          total = c.total + length {A = List ℕ} [];
        },
        title "Recvfrom error , failed to get packets" ∷ [],
      )
unfolding sniff with_protocol
no_packets buffer c =
    ap (λ r. some (r, title "Recvfrom error , failed to get packets" ∷ []))
      (counts_eq (omega arith) (omega arith) (omega arith))

sniff_from :
    (packets : List (List ℕ)) (buffer : List ℕ) (c : Counts)
    → length buffer ≡ 65536
    → IsBytes buffer
    → All IsPacket packets
    → c.total + length packets < 2 ^ 31
    → c.tcp ≤ c.total
    → c.udp ≤ c.total
    → (out : List Item) × (sniff buffer packets c
        ≡ some (
          record {
            tcp = c.tcp + with_protocol 6 packets;
            udp = c.udp + with_protocol 17 packets;
            total = c.total + length packets;
          },
          out,
        ))
sniff_from [] buffer c l h g t p q = (_, no_packets buffer c)
sniff_from (packet ∷ packets) buffer c l h g t p q =
    let (lp, hp) = buffer_after packet buffer l h g.0.0 g.0.2 in
    let u : u8 (packet ++ drop (length packet) buffer) 23 ≡ u8 packet 23 =
      u8-append packet (drop (length packet) buffer) 23 (omega arith) in
    let six = one_le (u8 (packet ++ drop (length packet) buffer) 23 == 6) in
    let seventeen = one_le (u8 (packet ++ drop (length packet) buffer) 23 == 17) in
    let (out, e) =
      process_packet_counts (packet ++ drop (length packet) buffer) (length packet) c lp hp g.0.2
        (omega arith) p q in
    let (more, e') =
      sniff_from packets (packet ++ drop (length packet) buffer)
        (record {
          tcp = c.tcp + one (u8 (packet ++ drop (length packet) buffer) 23 == 6);
          udp = c.udp + one (u8 (packet ++ drop (length packet) buffer) 23 == 17);
          total = c.total + 1;
        })
        lp hp g.1 (omega arith) (omega arith) (omega arith) in
    (
      out ++ more,
      sniff_step buffer packet packets c _ _ out more e e'
          ∙ ap (λ r. some (r, out ++ more))
              (counts_eq (plus_one c.tcp 6 packet packets u) (plus_one c.udp 17 packet packets u)
                (omega arith)),
    )

-- From a buffer of 65536 bytes, packets of 24 to 65536 bytes, of any contents and fewer than 2 ^ 31, do
-- not make the sniffer read behind its buffer. When `recvfrom` fails at last, the total is the number of
-- packets, and the counter of TCP (UDP) is the number of IPv4 packets of protocol 6 (17) and of the frames
-- of any other type that happen to have a 6 (17) in byte 23, since the type is not tested.
pub sniff-counts :
    (packets : List (List ℕ)) (buffer : List ℕ)
    → length buffer ≡ 65536
    → IsBytes buffer
    → All IsPacket packets
    → length packets < 2 ^ 31
    → (out : List Item) × (sniff buffer packets (record { tcp = 0; udp = 0; total = 0 })
        ≡ some (
          record {
            tcp = of_protocol 6 packets + mistaken 6 packets;
            udp = of_protocol 17 packets + mistaken 17 packets;
            total = length packets;
          },
          out,
        ))
sniff-counts packets buffer l h g t =
    let (out, e) =
      sniff_from packets buffer (record { tcp = 0; udp = 0; total = 0 }) l h g (omega arith)
        (omega arith) (omega arith) in
    (
      out,
      e
          ∙ ap (λ r. some (r, out))
              (counts_eq (omega (arith, with_protocol_lem 6 packets))
                (omega (arith, with_protocol_lem 17 packets)) (omega arith)),
    )
