-- ===== src/Sniff/Payload.antt =====
-- What is printed of a packet that is laid out by its headers.
use Prim.Native.String.{String}
use computer_networks_assign.Prelude.{
  ℕ, ◌+◌, ◌-◌, ◌*◌, ◌/◌, ◌%◌, ◌≤◌, ◌≡◌, sym, ap, ◌∙◌, some, List, [], ◌∷◌, ◌++◌, length, take, drop,
  append_assoc, length-append, length-drop, arith,
}
use computer_networks_assign.Sniff.Rows.{hexdump, take-front, drop-front}
use computer_networks_assign.Sniff.Dump.{print_data-hexdump}
use computer_networks_assign.Sniff.Packets.{
  Item, title, dump, u8, ip_length, print_ip_header, tcp_fields, udp_fields, dumps,
  print_tcp_packet, print_udp_packet, sizeof_udph,
}
use computer_networks_assign.Sniff.Fields.{
  u8-append, take_within, taken, tcp_fields-append, udp_fields-append, print_ip_header-append,
  u8-drop,
}

-- The end of what is printed, of the bytes of the three parts.
abbrev pub three_dumps : String → List ℕ → List ℕ → List ℕ → List Item
three_dumps name ip header payload =
    title "IP Header"
    ∷ dump (hexdump ip)
    ∷ title name
    ∷ dump (hexdump header)
    ∷ title "Data Payload"
    ∷ dump (hexdump payload)
    ∷ []

pub dumps-three_dumps :
    (name : String) (buffer : List ℕ) (a b h size : ℕ)
    → a + b ≤ length buffer
    → h ≤ length buffer
    → size ≤ length buffer
    → dumps name buffer a b h size
      ≡ some (
          three_dumps name
            (take a buffer)
            (take b (drop a buffer))
            (take (size - h) (drop h buffer)))
unfolding dumps
dumps-three_dumps name buffer a b h size p q r =
    let la = length-drop a buffer in
    let lh = length-drop h buffer in
    ground (
      arith,
      print_data-hexdump buffer a (omega arith),
      print_data-hexdump (drop a buffer) b (omega arith),
      print_data-hexdump (drop h buffer) (size - h) (omega arith),
    )

pub tcp_step :
    (buffer tcph : List ℕ) (n m size : ℕ) (d : List Item)
    → ip_length buffer ≡ n
    → drop (n + 14) buffer ≡ tcph
    → u8 tcph 12 / 16 * 4 ≡ m
    → dumps "TCP Header" buffer n m (14 + n + m) size ≡ some d
    → print_tcp_packet buffer size
      ≡ some (title "TCP Packet" ∷ (print_ip_header buffer ++ (tcp_fields tcph ++ d)))
unfolding print_tcp_packet
tcp_step buffer tcph n m size d a b c e = ground (arith, a, b, c, e)

pub udp_step :
    (buffer udph : List ℕ) (n size : ℕ) (d : List Item)
    → ip_length buffer ≡ n
    → drop (n + 14) buffer ≡ udph
    → dumps "UDP Header" buffer n sizeof_udph (14 + n + sizeof_udph) size ≡ some d
    → print_udp_packet buffer size
      ≡ some (title "UDP Packet" ∷ (print_ip_header buffer ++ (udp_fields udph ++ d)))
unfolding print_udp_packet
udp_step buffer udph n size d a b e = ground (arith, a, b, e)

printed :
    (t : Item) (z : List Item) {x x' y y' : List Item}
    → x ≡ x'
    → y ≡ y'
    → t ∷ (x ++ (y ++ z)) ≡ t ∷ (x' ++ (y' ++ z))
printed t z p q = cc

module _ (eth ip seg payload rest : List ℕ) (e : length eth ≡ 14) where
  abbrev pub frame : List ℕ
  frame = eth ++ (ip ++ (seg ++ payload))

  buffer_parts : frame ++ rest ≡ (eth ++ ip) ++ (seg ++ (payload ++ rest))
  buffer_parts =
      append_assoc eth (ip ++ (seg ++ payload)) rest
      ∙ ap (λ t. eth ++ t)
          (append_assoc ip (seg ++ payload) rest
            ∙ ap (λ t. ip ++ t) (append_assoc seg payload rest))
      ∙ sym (append_assoc eth ip (seg ++ (payload ++ rest)))

  length-frame : length frame ≡ 14 + length ip + length seg + length payload
  length-frame =
      let a = length-append eth (ip ++ (seg ++ payload)) in
      let b = length-append ip (seg ++ payload) in let c = length-append seg payload in omega arith

  second_header : drop (length ip + 14) (frame ++ rest) ≡ seg ++ (payload ++ rest)
  second_header =
      let l = length-append eth ip in
      ap (drop (length ip + 14)) buffer_parts
      ∙ drop-front (eth ++ ip) (seg ++ (payload ++ rest)) (length ip + 14) (omega arith)

  payload_at : drop (14 + length ip + length seg) (frame ++ rest) ≡ payload ++ rest
  payload_at =
      let l = length-append eth ip in
      let k = length-append (eth ++ ip) seg in
      ap (drop (14 + length ip + length seg))
        (buffer_parts ∙ sym (append_assoc (eth ++ ip) seg (payload ++ rest)))
      ∙ drop-front ((eth ++ ip) ++ seg) (payload ++ rest) (14 + length ip + length seg)
          (omega arith)

  ip_length_here : 1 ≤ length ip → ip_length (frame ++ rest) ≡ u8 ip 0 % 16 * 4
  ip_length_here h =
      ap (λ b. b % 16 * 4)
        (u8-drop 14 (frame ++ rest)
          ∙ ap (λ t. u8 t 0)
              (ap (drop 14) (append_assoc eth (ip ++ (seg ++ payload)) rest)
                ∙ drop-front eth _ 14 e
                ∙ append_assoc ip (seg ++ payload) rest)
          ∙ u8-append ip ((seg ++ payload) ++ rest) 0 h)

  ip_header_here : 20 ≤ length ip → print_ip_header (frame ++ rest) ≡ print_ip_header (eth ++ ip)
  ip_header_here h =
      let l = length-append eth ip in
      ap print_ip_header buffer_parts
      ∙ print_ip_header-append (eth ++ ip) (seg ++ (payload ++ rest)) (omega arith)

  dumps_here :
      (name : String)
      → dumps name
          (frame ++ rest)
          (length ip)
          (length seg)
          (14 + length ip + length seg)
          (length frame)
        ≡ some (
            three_dumps name
              (take (length ip) frame)
              (take (length seg) (drop (length ip) frame))
              payload)
  dumps_here name =
      let l = length-append frame rest in
      let k = length-frame in
      let all =
        dumps-three_dumps name (frame ++ rest) (length ip) (length seg)
          (14 + length ip + length seg) (length frame) (omega arith) (omega arith) (omega arith) in
      let t = take_within frame rest (length ip) (omega arith) in
      let u = taken frame rest (length ip) (length seg) (omega arith) in
      let n : length frame - (14 + length ip + length seg) ≡ length payload = omega arith in
      let v : take (length frame - (14 + length ip + length seg))
            (drop (14 + length ip + length seg) (frame ++ rest))
          ≡ payload =
        ap (λ t. take (length frame - (14 + length ip + length seg)) t) payload_at
        ∙ take-front payload rest (length frame - (14 + length ip + length seg)) (sym n) in
      all ∙ ap some (three t u v)
    where
      three :
          {a a' b b' c c' : List ℕ}
          → a ≡ a'
          → b ≡ b'
          → c ≡ c'
          → three_dumps name a b c ≡ three_dumps name a' b' c'
      three p q r = cc

  -- Of a TCP packet in a frame, whose header lengths are those of its headers, the sniffer prints the
  -- fields of the two headers, and dumps exactly its payload, whatever stays in the buffer behind it; but
  -- the bytes that it dumps as the two headers are counted from the start of the frame, not of the IP
  -- header.
  pub print_tcp_packet-frame :
      length ip ≡ u8 ip 0 % 16 * 4
      → 20 ≤ length ip
      → length seg ≡ u8 seg 12 / 16 * 4
      → 20 ≤ length seg
      → print_tcp_packet (frame ++ rest) (length frame)
        ≡ some (
            title "TCP Packet"
            ∷ (print_ip_header (eth ++ ip)
                ++ (tcp_fields seg
                    ++ three_dumps "TCP Header"
                        (take (length ip) frame)
                        (take (length seg) (drop (length ip) frame))
                        payload)))
  print_tcp_packet-frame a b c d =
      tcp_step (frame ++ rest) (seg ++ (payload ++ rest)) (length ip) (length seg) (length frame) _
        (ip_length_here (omega arith) ∙ sym a) second_header
        (ap (λ n. n / 16 * 4) (u8-append seg (payload ++ rest) 12 (omega arith)) ∙ sym c)
        (dumps_here "TCP Header")
      ∙ ap some (printed _ _ (ip_header_here b) (tcp_fields-append seg (payload ++ rest) d))

  -- The same of a UDP packet
  pub print_udp_packet-frame :
      length ip ≡ u8 ip 0 % 16 * 4
      → 20 ≤ length ip
      → length seg ≡ sizeof_udph
      → print_udp_packet (frame ++ rest) (length frame)
        ≡ some (
            title "UDP Packet"
            ∷ (print_ip_header (eth ++ ip)
                ++ (udp_fields seg
                    ++ three_dumps "UDP Header"
                        (take (length ip) frame)
                        (take (length seg) (drop (length ip) frame))
                        payload)))
  print_udp_packet-frame a b c =
      udp_step (frame ++ rest) (seg ++ (payload ++ rest)) (length ip) (length frame) _
        (ip_length_here (omega arith) ∙ sym a) second_header
        (ap
            (λ m.
              dumps "UDP Header" (frame ++ rest) (length ip) m (14 + length ip + m) (length frame))
            (sym c)
          ∙ dumps_here "UDP Header")
      ∙ ap some
          (printed _ _ (ip_header_here b) (udp_fields-append seg (payload ++ rest) (omega arith)))
