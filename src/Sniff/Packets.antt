-- ===== src/Sniff/Packets.antt =====
-- The packet sniffer: the headers that it prints, what it counts, and the loop over `recvfrom`. The host is
-- little-endian.
use Prim.Native.String.{String}
use computer_networks_assign.Prelude.{
  ℕ, ◌+◌, ◌-◌, ◌*◌, ◌/◌, ◌%◌, ◌^◌, Option, none, some, List, [], ◌∷◌, ◌++◌, length, take, drop,
  get_elem?, ◌==◌, if◌then◌else◌,
}
use computer_networks_assign.Sniff.{print_data, ◌>>=◌}

-- A piece of the output: a text, a text with a number, a text with the bytes of an address, and what
-- `PrintData` prints.
pub data Item : Type 0 where
  title : String → Item
  number : String → ℕ → Item
  mac_address ip_address : String → List ℕ → Item
  dump : List ℕ → Item

-- The fields of the headers. The buffer has 65536 bytes, and no field lies behind byte 134.
abbrev pub u8 : List ℕ → ℕ → ℕ
u8 buffer i = elim (get_elem? buffer i) [ none ↦ 0 | some b ↦ b ]

-- `ntohs` of a field, the field itself, and `ntohl`
abbrev pub u16 : List ℕ → ℕ → ℕ
u16 buffer i = u8 buffer i * 256 + u8 buffer (i + 1)

abbrev pub host_u16 : List ℕ → ℕ → ℕ
host_u16 buffer i = u8 buffer i + 256 * u8 buffer (i + 1)

abbrev pub u32 : List ℕ → ℕ → ℕ
u32 buffer i = u16 buffer i * 2 ^ 16 + u16 buffer (i + 2)

-- The bit `k` of a byte of flags
abbrev pub flag : List ℕ → ℕ → ℕ → ℕ
flag buffer i k = u8 buffer i / 2 ^ k % 2

abbrev pub print_ethernet_header : List ℕ → List Item
print_ethernet_header buffer =
    title "Ethernet Header"
    ∷ mac_address "Destination Address" (take 6 buffer)
    ∷ mac_address "Source Address" (take 6 (drop 6 buffer))
    ∷ number "Protocol" (host_u16 buffer 12)
    ∷ []

-- `iph->ihl * 4`
abbrev pub ip_length : List ℕ → ℕ
ip_length buffer = u8 buffer 14 % 16 * 4

unfoldable pub print_ip_header : List ℕ → List Item
print_ip_header buffer =
    print_ethernet_header buffer
    ++ title "IP Header"
      ∷ number "IP Version" (u8 buffer 14 / 16)
      ∷ number "IP Header Length, DWORDS" (u8 buffer 14 % 16)
      ∷ number "IP Header Length, Bytes" (u8 buffer 14 % 16 * 4)
      ∷ number "Type Of Service" (u8 buffer 15)
      ∷ number "IP Total Length" (u16 buffer 16)
      ∷ number "Identification" (u16 buffer 18)
      ∷ number "TTL" (u8 buffer 22)
      ∷ number "Protocol" (u8 buffer 23)
      ∷ number "Checksum" (u16 buffer 24)
      ∷ ip_address "Source IP" (take 4 (drop 26 buffer))
      ∷ ip_address "Destination IP" (take 4 (drop 30 buffer))
      ∷ []

-- The fields of the header that starts at `tcph`.
unfoldable pub tcp_fields : List ℕ → List Item
tcp_fields tcph =
    title "TCP Header"
    ∷ number "Source Port" (u16 tcph 0)
    ∷ number "Destination Port" (u16 tcph 2)
    ∷ number "Sequence Number" (u32 tcph 4)
    ∷ number "Acknowledge Number" (u32 tcph 8)
    ∷ number "Header Length, DWORDS" (u8 tcph 12 / 16)
    ∷ number "Header Length, BYTES" (u8 tcph 12 / 16 * 4)
    ∷ number "Urgent Flag" (flag tcph 13 5)
    ∷ number "Acknowledgement Flag" (flag tcph 13 4)
    ∷ number "Push Flag" (flag tcph 13 3)
    ∷ number "Reset Flag" (flag tcph 13 2)
    ∷ number "Synchronise Flag" (flag tcph 13 1)
    ∷ number "Finish Flag" (flag tcph 13 0)
    ∷ number "Window" (u16 tcph 14)
    ∷ number "Checksum" (u16 tcph 16)
    ∷ number "Urgent Pointer" (host_u16 tcph 18)
    ∷ title "DATA Dump"
    ∷ []

-- The three dumps at the end. A negative number of bytes is none for the loop of `PrintData`.
unfoldable pub dumps : String → List ℕ → ℕ → ℕ → ℕ → ℕ → Option (List Item)
dumps name buffer iphdrlen length header_size size = do
  ip ← print_data buffer iphdrlen
  header ← print_data (drop iphdrlen buffer) length
  payload ← print_data (drop header_size buffer) (size - header_size)
  some (
      title "IP Header"
      ∷ dump ip
      ∷ title name
      ∷ dump header
      ∷ title "Data Payload"
      ∷ dump payload
      ∷ [])

unfoldable pub print_tcp_packet : List ℕ → ℕ → Option (List Item)
print_tcp_packet buffer size =
    let iphdrlen = ip_length buffer in
    let tcph = drop (iphdrlen + 14) buffer in
    let header_size = 14 + iphdrlen + u8 tcph 12 / 16 * 4 in
    do
      printed ← dumps "TCP Header" buffer iphdrlen (u8 tcph 12 / 16 * 4) header_size size
      some (title "TCP Packet" ∷ (print_ip_header buffer ++ (tcp_fields tcph ++ printed)))

unfoldable pub udp_fields : List ℕ → List Item
udp_fields udph =
    title "UDP Header"
    ∷ number "Source Port" (u16 udph 0)
    ∷ number "Destination Port" (u16 udph 2)
    ∷ number "UDP Length" (u16 udph 4)
    ∷ number "UDP Checksum" (u16 udph 6)
    ∷ []

-- `sizeof udph` is that of the pointer.
abbrev pub sizeof_udph : ℕ
sizeof_udph = 8

unfoldable pub print_udp_packet : List ℕ → ℕ → Option (List Item)
print_udp_packet buffer size =
    let iphdrlen = ip_length buffer in
    let udph = drop (iphdrlen + 14) buffer in
    let header_size = 14 + iphdrlen + sizeof_udph in
    do
      printed ← dumps "UDP Header" buffer iphdrlen sizeof_udph header_size size
      some (title "UDP Packet" ∷ (print_ip_header buffer ++ (udp_fields udph ++ printed)))

-- The counters, each an `int`: one behind the greatest is a fault.
pub record Counts : Type 0 where
  pub tcp : ℕ
  pub udp : ℕ
  pub total : ℕ

abbrev pub increment : ℕ → Option ℕ
increment n = if n == 2 ^ 31 - 1 then none else some (n + 1)

abbrev pub counted : Counts → List Item
counted c = number "TCP" c.tcp ∷ number "UDP" c.udp ∷ number "Total" c.total ∷ []

-- The last line, behind what has been printed.
abbrev pub show : List Item → Counts → Option (Counts × List Item)
show printed c = some (c, printed ++ counted c)

unfoldable pub process_packet : List ℕ → ℕ → Counts → Option (Counts × List Item)
process_packet buffer size c = do
  total ← increment c.total
  if u8 buffer 23 == 6
      then (do
        tcp ← increment c.tcp
        printed ← print_tcp_packet buffer size
        show printed (record { tcp = tcp; udp = c.udp; total = total }))
      else if u8 buffer 23 == 17
      then (do
        udp ← increment c.udp
        printed ← print_udp_packet buffer size
        show printed (record { tcp = c.tcp; udp = udp; total = total }))
      else show [] (record { tcp = c.tcp; udp = c.udp; total = total })

-- The loop of `main` over the packets that `recvfrom` gives until it fails; the bytes behind a packet stay
-- in the buffer.
unfoldable pub sniff : List ℕ → List (List ℕ) → Counts → Option (Counts × List Item)
sniff buffer [] c = some (c, title "Recvfrom error , failed to get packets" ∷ [])
sniff buffer (packet ∷ packets) c =
    let buffer' = packet ++ drop (length packet) buffer in
    do
      one ← process_packet buffer' (length packet) c
      more ← sniff buffer' packets one.0
      some (more.0, one.1 ++ more.1)
