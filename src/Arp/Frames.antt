-- ===== src/Arp/Frames.antt =====
-- What reply.c reads is what send.c lays out.
use computer_networks_assign.Prelude.{
  ℕ, ◌+◌, ◌*◌, ◌/◌, ◌%◌, ◌^◌, ◌<◌, ◌≡◌, ap, List, [], ◌∷◌, ◌++◌, ◌==◌, arith,
}
use computer_networks_assign.Arp.{
  ArpHdr, header_bytes, ether_frame, eth_p_arp, arpop_reply, read_header, report, is_reply,
}

pub data IsMac : List ℕ → Type 0 where
  mac : (a b c d e f : ℕ) → IsMac (a ∷ b ∷ c ∷ d ∷ e ∷ f ∷ [])

pub data IsIp : List ℕ → Type 0 where
  ip : (a b c d : ℕ) → IsIp (a ∷ b ∷ c ∷ d ∷ [])

-- The fields fit their places in the structure.
pub record IsHdr (h : ArpHdr) : Type 0 where
  pub htype : h.htype < 2 ^ 16
  pub ptype : h.ptype < 2 ^ 16
  pub opcode : h.opcode < 2 ^ 16
  pub sender_mac : IsMac h.sender_mac
  pub sender_ip : IsIp h.sender_ip
  pub target_mac : IsMac h.target_mac
  pub target_ip : IsIp h.target_ip

two_bytes : (n : ℕ) → n < 2 ^ 16 → n / 256 % 256 * 256 + n % 256 ≡ n
two_bytes n h = omega arith

report_fields :
    (htype ptype hlen plen opcode : ℕ) (dst src smac sip tmac tip rest : List ℕ)
    → htype < 2 ^ 16
    → ptype < 2 ^ 16
    → opcode < 2 ^ 16
    → IsMac dst
    → IsMac src
    → IsMac smac
    → IsIp sip
    → IsMac tmac
    → IsIp tip
    → let h : ArpHdr = record {
      htype = htype;
      ptype = ptype;
      hlen = hlen;
      plen = plen;
      opcode = opcode;
      sender_mac = smac;
      sender_ip = sip;
      target_mac = tmac;
      target_ip = tip;
    } in
      report (ether_frame dst src h ++ rest)
      ≡ record { destination = dst; source = src; type_code = eth_p_arp; header = h }
unfolding report read_header ether_frame header_bytes
report_fields htype ptype hlen plen opcode _ _ _ _ _ _ rest t p o (mac _ _ _ _ _ _)
      (mac _ _ _ _ _ _) (mac _ _ _ _ _ _) (ip _ _ _ _) (mac _ _ _ _ _ _) (ip _ _ _ _) =
    ground (arith, two_bytes htype t, two_bytes ptype p, two_bytes opcode o)

is_reply_fields :
    (htype ptype hlen plen opcode : ℕ) (dst src smac sip tmac tip rest : List ℕ)
    → opcode < 2 ^ 16
    → IsMac dst
    → IsMac src
    → let h : ArpHdr = record {
      htype = htype;
      ptype = ptype;
      hlen = hlen;
      plen = plen;
      opcode = opcode;
      sender_mac = smac;
      sender_ip = sip;
      target_mac = tmac;
      target_ip = tip;
    } in
      is_reply (ether_frame dst src h ++ rest) ≡ (opcode == arpop_reply)
unfolding ether_frame header_bytes
is_reply_fields htype ptype hlen plen opcode _ _ _ _ _ _ rest o (mac _ _ _ _ _ _)
      (mac _ _ _ _ _ _) =
    ap (λ n. n == arpop_reply) (two_bytes opcode o)

-- Whatever addresses and fields of their sizes send.c lays out, and whatever follows them in the buffer,
-- reply.c prints these addresses, the type code of ARP and these fields.
pub report-ether_frame :
    (dst src rest : List ℕ) (h : ArpHdr)
    → IsMac dst
    → IsMac src
    → IsHdr h
    → report (ether_frame dst src h ++ rest)
      ≡ record { destination = dst; source = src; type_code = eth_p_arp; header = h }
report-ether_frame dst src rest h d s fits =
    report_fields h.htype h.ptype h.hlen h.plen h.opcode dst src h.sender_mac h.sender_ip
      h.target_mac h.target_ip rest fits.htype fits.ptype fits.opcode d s fits.sender_mac
      fits.sender_ip fits.target_mac fits.target_ip

-- Of the frames that send.c can lay out, the loop of reply.c ends with those of the operation of a
-- reply alone.
pub is_reply-ether_frame :
    (dst src rest : List ℕ) (h : ArpHdr)
    → IsMac dst
    → IsMac src
    → IsHdr h
    → is_reply (ether_frame dst src h ++ rest) ≡ (h.opcode == arpop_reply)
is_reply-ether_frame dst src rest h d s fits =
    is_reply_fields h.htype h.ptype h.hlen h.plen h.opcode dst src h.sender_mac h.sender_ip
      h.target_mac h.target_ip rest fits.opcode d s
