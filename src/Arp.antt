-- ===== src/Arp.antt =====
-- ARP over raw sockets, ARP_Assignment_22: ARP_eth_frame/send.c, which sends a request, and
-- ARP_header/reply.c, which waits for a reply and prints the fields of it. The files of the same names in
-- the other directory repeat them.
use Prim.Native.String.{String}
use computer_networks_assign.Prelude.{
  ℕ, zero, suc, ◌+◌, ◌*◌, ◌/◌, ◌%◌, Bool, true, false, not, ◌&&◌, ◌||◌, Option, none, some, List,
  [], ◌∷◌, ◌++◌, length, take, drop, replicate, get_elem?, leb, ◌==◌, if◌then◌else◌,
}
use computer_networks_assign.Prelude.Int.{ℤ, pos, negsuc, is_neg, is_zero, ltz, eqz}
use computer_networks_assign.Os.{
  af_packet, af_inet, raw, socket, close, recv, sendto, malloc, ioctl_hwaddr, if_nametoindex,
  inet_pton, getaddrinfo, perror, print, M, pure, ◌>>=◌, ◌>>◌, ask, sys, call, exit, die_if,
}
pub mod Frames
pub mod Sending
pub mod Listening
mod Cases

-- `allocate_ustrmem`, and `allocate_strmem` with it: the zeroed bytes.
unfoldable pub allocate_ustrmem : ℤ → M (List ℕ)
allocate_ustrmem (negsuc n) = call (print "Cannot allocate memory") >> exit 1
allocate_ustrmem (pos len) =
    if len == 0 then (call (print "Cannot allocate memory") >> exit 1) else do
      tmp ← sys (malloc len)
      if is_zero tmp
          then (call (print "Cannot allocate memory") >> exit 1)
          else pure (replicate len 0)

-- `struct _arp_hdr`; the numbers of two bytes by their values, the addresses by their bytes.
pub record ArpHdr : Type 0 where
  pub htype : ℕ
  pub ptype : ℕ
  pub hlen : ℕ
  pub plen : ℕ
  pub opcode : ℕ
  pub sender_mac : List ℕ
  pub sender_ip : List ℕ
  pub target_mac : List ℕ
  pub target_ip : List ℕ

-- The bytes of `htons(n)` in memory
abbrev pub htons : ℕ → List ℕ
htons n = n / 256 % 256 ∷ n % 256 ∷ []

abbrev pub arpop_request : ℕ
arpop_request = 1

abbrev pub arpop_reply : ℕ
arpop_reply = 2

abbrev pub eth_p_ip : ℕ
eth_p_ip = 0x0800

abbrev pub eth_p_arp : ℕ
eth_p_arp = 0x0806

-- The header that send.c fills in.
abbrev pub request : List ℕ → List ℕ → List ℕ → ArpHdr
request src_mac sender_ip target_ip = record {
  htype = 1;
  ptype = eth_p_ip;
  hlen = 6;
  plen = 4;
  opcode = arpop_request;
  sender_mac = src_mac;
  sender_ip = sender_ip;
  target_mac = replicate 6 0;
  target_ip = target_ip;
}

-- The structure in memory, which has no padding.
unfoldable pub header_bytes : ArpHdr → List ℕ
header_bytes h =
    htons h.htype
    ++ (htons h.ptype
        ++ (h.hlen
            ∷ h.plen
            ∷ (htons h.opcode ++ (h.sender_mac ++ (h.sender_ip ++ (h.target_mac ++ h.target_ip))))))

-- The first `frame_length` bytes of `ether_frame`.
unfoldable pub ether_frame : List ℕ → List ℕ → ArpHdr → List ℕ
ether_frame dst_mac src_mac h =
    dst_mac ++ (src_mac ++ (eth_p_arp / 256 ∷ eth_p_arp % 256 ∷ header_bytes h))

abbrev pub broadcast : List ℕ
broadcast = replicate 6 0xff

-- IP_MAXPACKET
abbrev pub ip_maxpacket : ℕ
ip_maxpacket = 65535

-- The three arrays of bytes and the three texts at the start.
unfoldable pub allocations : M (Unit {0})
allocations = do
  src_mac ← allocate_ustrmem (pos 6)
  dst_mac ← allocate_ustrmem (pos 6)
  frame ← allocate_ustrmem (pos ip_maxpacket)
  interface ← allocate_ustrmem (pos 40)
  target ← allocate_ustrmem (pos 40)
  src_ip ← allocate_ustrmem (pos 16)
  pure tt

-- The hardware address of the interface
unfoldable pub hardware_address : String → M (List ℕ)
hardware_address interface = do
  sd ← sys (socket af_inet raw)
  die_if (is_neg sd) "socket" 1
  r ← ask (ioctl_hwaddr sd interface)
  die_if (is_neg r.ret) "ioctl" 1
  call (close sd)
  pure (take 6 r.text)

-- The two protocol addresses
unfoldable pub addresses : String → String → M (List ℕ × List ℕ)
addresses src_ip target = do
  s ← ask (inet_pton src_ip)
  die_if (not (eqz s.ret (pos 1))) "inet_pton() failed" 1
  t ← ask (getaddrinfo target)
  die_if (not (is_zero t.ret)) "getaddrinfo() failed" 1
  pure (s.text, take 4 t.text)

unfoldable pub transmit : List ℕ → M (Unit {0})
transmit frame = do
  sd ← sys (socket af_packet raw)
  die_if (is_neg sd) "socket() failed" 1
  bytes ← sys (sendto sd frame)
  die_if (not (ltz (pos 0) bytes)) "sendto() failed" 1
  call (close sd)

-- `main` of send.c
unfoldable pub send_request : M (Unit {0})
send_request = do
  allocations
  src_mac ← hardware_address "eno1"
  index ← sys (if_nametoindex "eno1")
  die_if (is_zero index) "if_nametoindex" 1
  ips ← addresses "11.12.13.14" "192.168.29.1"
  transmit (ether_frame broadcast src_mac (request src_mac ips.0 ips.1))

-- A byte of the buffer, which is longer than a frame.
abbrev pub byte_at : List ℕ → ℕ → ℕ
byte_at frame i = elim (get_elem? frame i) [ none ↦ 0 | some b ↦ b ]

-- `ntohs` of the field at `i`
abbrev pub ntohs : List ℕ → ℕ → ℕ
ntohs frame i = byte_at frame i * 256 + byte_at frame (i + 1)

-- The loop of reply.c ends with such a frame.
abbrev pub is_reply : List ℕ → Bool
is_reply frame = (ntohs frame 12 == eth_p_arp) && (ntohs frame 20 == arpop_reply)

abbrev pub eintr : ℤ
eintr = pos 4

-- What `recv` makes of the buffer: the bytes behind those received stay.
abbrev pub received : List ℕ → List ℕ → List ℕ
received text frame = text ++ drop (length text) frame

-- The loop, for at most `fuel` calls of `recv`; the `passed` of a failed one is `errno`. The result
-- says whether there was a reply.
unfoldable pub await_reply : ℕ → ℤ → List ℕ → M (List ℕ × Bool)
await_reply zero sd frame = pure (frame, is_reply frame)
await_reply (suc fuel) sd frame = elim (is_reply frame) [
  | true ↦ pure (frame, true)
  | false ↦ do
    r ← ask (recv sd)
    if is_neg r.ret
        then if eqz r.passed eintr
          then await_reply fuel sd (replicate (length frame) 0)
          else (call (perror "recv() failed:") >> exit 1)
        else await_reply fuel sd (received r.text frame)
]

-- What is printed of a frame.
pub record Report : Type 0 where
  pub destination : List ℕ
  pub source : List ℕ
  pub type_code : ℕ
  pub header : ArpHdr

-- The fields of the structure that starts at byte 14.
unfoldable pub read_header : List ℕ → ArpHdr
read_header frame = record {
  htype = ntohs frame 14;
  ptype = ntohs frame 16;
  hlen = byte_at frame 18;
  plen = byte_at frame 19;
  opcode = ntohs frame 20;
  sender_mac = take 6 (drop 22 frame);
  sender_ip = take 4 (drop 28 frame);
  target_mac = take 6 (drop 32 frame);
  target_ip = take 4 (drop 38 frame);
}

unfoldable pub report : List ℕ → Report
report frame = record {
  destination = take 6 frame;
  source = take 6 (drop 6 frame);
  type_code = ntohs frame 12;
  header = read_header frame;
}

-- `main` of reply.c, up to what is printed.
unfoldable pub receive_reply : ℕ → M (Report × Bool)
receive_reply fuel = do
  frame ← allocate_ustrmem (pos ip_maxpacket)
  sd ← sys (socket af_packet raw)
  die_if (is_neg sd) "socket()" 1
  got ← await_reply fuel sd frame
  call (close sd)
  pure (report got.0, got.1)
