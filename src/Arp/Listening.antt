-- ===== src/Arp/Listening.antt =====
-- reply.c: the loop over `recv`.
use computer_networks_assign.Prelude.{
  ℕ, zero, suc, ◌<◌, ◌≤◌, ◌≡◌, ◌==◌, refl, ap, subst, ◌∙◌, Bool, true, false, List, [], ◌∷◌, ◌++◌,
  length, append_assoc, drop, replicate, arith,
}
use computer_networks_assign.Prelude.Int.{ℤ, is_neg, is_zero, eqz}
use computer_networks_assign.Os.{Trace, Os, done, recv, close, socket, malloc, af_packet, raw}
use computer_networks_assign.Arp.{
  ArpHdr, await_reply, receive_reply, report, is_reply, received, byte_at, eintr, ether_frame,
  header_bytes, allocate_ustrmem, arpop_reply, eth_p_arp, ip_maxpacket,
}
use computer_networks_assign.Arp.Frames.{
  IsMac, mac, IsHdr, report-ether_frame, is_reply-ether_frame,
}

-- What the socket gives, call for call, after a trace: frames that are no ARP replies and calls that a
-- signal ends, and at last the frame `text`, with a byte for every field of the header.
pub data Hears (os : Os) (sd : ℤ) (text : List ℕ) : ℕ → Trace → Type 0 where
  at_last :
      {tr : Trace}
      → is_neg (os tr (recv sd)).ret ≡ false
      → (os tr (recv sd)).text ≡ text
      → Hears os sd text 1 tr
  other :
      {n : ℕ} {tr : Trace}
      → is_neg (os tr (recv sd)).ret ≡ false
      → 22 ≤ length (os tr (recv sd)).text
      → is_reply (os tr (recv sd)).text ≡ false
      → Hears os sd text n (record { call = recv sd; reply = os tr (recv sd) } ∷ tr)
      → Hears os sd text (suc n) tr
  interrupted :
      {n : ℕ} {tr : Trace}
      → is_neg (os tr (recv sd)).ret ≡ true
      → eqz (os tr (recv sd)).passed eintr ≡ true
      → Hears os sd text n (record { call = recv sd; reply = os tr (recv sd) } ∷ tr)
      → Hears os sd text (suc n) tr

byte_at-append : (xs ys : List ℕ) (i : ℕ) → i < length xs → byte_at (xs ++ ys) i ≡ byte_at xs i
byte_at-append [] ys i h = omega arith
byte_at-append (x ∷ xs) ys zero h = refl
byte_at-append (x ∷ xs) ys (suc i) h = byte_at-append xs ys i (omega arith)

cong_reply :
    (f g : List ℕ)
    → byte_at f 12 ≡ byte_at g 12
    → byte_at f 13 ≡ byte_at g 13
    → byte_at f 20 ≡ byte_at g 20
    → byte_at f 21 ≡ byte_at g 21
    → is_reply f ≡ is_reply g
cong_reply f g a b c d = cc

is_reply-received :
    (text frame : List ℕ) → 22 ≤ length text → is_reply (received text frame) ≡ is_reply text
is_reply-received text frame h =
    let at : (i : ℕ) → i < length text → byte_at (received text frame) i ≡ byte_at text i =
      byte_at-append text (drop (length text) frame) in
    cong_reply (received text frame) text (at 12 (omega arith)) (at 13 (omega arith))
      (at 20 (omega arith)) (at 21 (omega arith))

byte_at-replicate : (n i : ℕ) → byte_at (replicate n 0) i ≡ 0
byte_at-replicate zero i = refl
byte_at-replicate (suc n) zero = refl
byte_at-replicate (suc n) (suc i) = byte_at-replicate n i

zeros_no_reply : (n : ℕ) → is_reply (replicate n 0) ≡ false
zeros_no_reply n =
    cong_reply (replicate n 0) [] (byte_at-replicate n 12) (byte_at-replicate n 13)
      (byte_at-replicate n 20) (byte_at-replicate n 21)

await_other :
    (fuel : ℕ) (sd : ℤ) (frame : List ℕ) (os : Os) (tr : Trace)
    → is_reply frame ≡ false
    → is_neg (os tr (recv sd)).ret ≡ false
    → await_reply (suc fuel) sd frame os tr
      ≡ await_reply fuel sd
          (received (os tr (recv sd)).text frame)
          os
          (record { call = recv sd; reply = os tr (recv sd) } ∷ tr)
unfolding await_reply
await_other fuel sd frame os tr q p = ground arith

await_interrupted :
    (fuel : ℕ) (sd : ℤ) (frame : List ℕ) (os : Os) (tr : Trace)
    → is_reply frame ≡ false
    → is_neg (os tr (recv sd)).ret ≡ true
    → eqz (os tr (recv sd)).passed eintr ≡ true
    → await_reply (suc fuel) sd frame os tr
      ≡ await_reply fuel sd
          (replicate (length frame) 0)
          os
          (record { call = recv sd; reply = os tr (recv sd) } ∷ tr)
unfolding await_reply
await_interrupted fuel sd frame os tr q p e = ground arith

-- The loop ends at once with a reply in the buffer.
await_ready :
    (fuel : ℕ) (sd : ℤ) (frame : List ℕ) (os : Os) (tr : Trace)
    → is_reply frame ≡ true
    → await_reply fuel sd frame os tr ≡ done (frame, true) tr
unfolding await_reply
await_ready zero sd frame os tr q = ap (λ b. done (frame, b) tr) q
await_ready (suc fuel) sd frame os tr q = ground arith

some_call :
    {os : Os} {sd : ℤ} {text : List ℕ} {n : ℕ} {tr : Trace} → Hears os sd text n tr → n ≤ 0 → ⊥
some_call (at_last p e) f = omega arith
some_call (other p m e h) f = omega arith
some_call (interrupted p e h) f = omega arith

-- With a call for every frame, the loop ends with the reply at the start of the buffer.
await_reply-Hears :
    (os : Os) (sd : ℤ) (text frame : List ℕ) (n : ℕ) (tr : Trace) (fuel : ℕ)
    → 22 ≤ length text
    → is_reply text ≡ true
    → is_reply frame ≡ false
    → Hears os sd text n tr
    → n ≤ fuel
    → (rest : List ℕ) × (tr' : Trace) × (await_reply fuel sd frame os tr
        ≡ done (text ++ rest, true) tr')
unfolding await_reply
await_reply-Hears os sd text frame n tr zero l r q h f = elim (some_call h f) [ ]
await_reply-Hears os sd text frame n tr (suc fuel) l r q (at_last p e) f = (
  drop (length text) frame,
  _,
  await_other fuel sd frame os tr q p
      ∙ ap
          (λ t.
            await_reply fuel sd (received t frame) os
              (record { call = recv sd; reply = os tr (recv sd) } ∷ tr))
          e
      ∙ await_ready fuel sd (received text frame) os _ (is_reply-received text frame l ∙ r),
)
await_reply-Hears os sd text frame n tr (suc fuel) l r q (other p m e h) f =
    let (rest, tr', e') =
      await_reply-Hears os sd text _ _ _ fuel l r (is_reply-received _ frame m ∙ e) h
        (omega arith) in
    (rest, tr', await_other fuel sd frame os tr q p ∙ e')
await_reply-Hears os sd text frame n tr (suc fuel) l r q (interrupted p e h) f =
    let (rest, tr', e') =
      await_reply-Hears os sd text _ _ _ fuel l r (zeros_no_reply (length frame)) h (omega arith) in
    (rest, tr', await_interrupted fuel sd frame os tr q p e ∙ e')

-- `main` of reply.c around the loop.
receive_step :
    (os : Os) (fuel : ℕ) (frame : List ℕ) (b : Bool) (tr : Trace)
    → let m = os [] (malloc ip_maxpacket) in
      let at_socket : Trace = record { call = malloc ip_maxpacket; reply = m } ∷ [] in
      let s = os at_socket (socket af_packet raw) in
      is_zero m.ret ≡ false
      → is_neg s.ret ≡ false
      → await_reply fuel s.ret
          (replicate ip_maxpacket 0)
          os
          (record { call = socket af_packet raw; reply = s } ∷ at_socket)
        ≡ done (frame, b) tr
      → (tr : Trace) × (receive_reply fuel os [] ≡ done (report frame, b) tr)
unfolding receive_reply allocate_ustrmem
receive_step os fuel frame b tr g p w =
    let m = os [] (malloc ip_maxpacket) in
    let at_socket : Trace = record { call = malloc ip_maxpacket; reply = m } ∷ [] in
    let s = os at_socket (socket af_packet raw) in
    (record { call = close s.ret; reply = os tr (close s.ret) } ∷ tr, ground arith)

length-ether_frame :
    (dst src pad : List ℕ) (h : ArpHdr)
    → IsMac dst
    → IsMac src
    → 22 ≤ length (ether_frame dst src h ++ pad)
unfolding ether_frame header_bytes
length-ether_frame _ _ pad h (mac _ _ _ _ _ _) (mac _ _ _ _ _ _) = omega arith

-- Where memory and the socket are given, and the socket gives frames of 22 bytes and more that are no
-- ARP replies, with calls that a signal ends among them, and then an ARP reply laid out like a frame of
-- send.c, reply.c prints the addresses and the fields of this reply, as soon as it may call `recv` once
-- for each.
pub receive_reply-Hears :
    (os : Os) (fuel n : ℕ) (dst src pad : List ℕ) (h : ArpHdr)
    → let m = os [] (malloc ip_maxpacket) in
      let at_socket : Trace = record { call = malloc ip_maxpacket; reply = m } ∷ [] in
      let s = os at_socket (socket af_packet raw) in
      is_zero m.ret ≡ false
      → is_neg s.ret ≡ false
      → IsMac dst
      → IsMac src
      → IsHdr h
      → h.opcode ≡ arpop_reply
      → Hears os s.ret
          (ether_frame dst src h ++ pad)
          n
          (record { call = socket af_packet raw; reply = s } ∷ at_socket)
      → n ≤ fuel
      → (tr : Trace) × (receive_reply fuel os []
          ≡ done
              (record { destination = dst; source = src; type_code = eth_p_arp; header = h }, true)
              tr)
receive_reply-Hears os fuel n dst src pad h g p d s fits o heard f =
    let frame = ether_frame dst src h ++ pad in
    let (rest, tr, e) =
      await_reply-Hears os _ frame (replicate ip_maxpacket 0) n _ fuel
        (length-ether_frame dst src pad h d s)
        (is_reply-ether_frame dst src pad h d s fits ∙ ap (λ c. c == arpop_reply) o)
        (zeros_no_reply ip_maxpacket) heard f in
    subst (λ r. (tr : Trace) × (receive_reply fuel os [] ≡ done (r, true) tr))
      (ap report (append_assoc (ether_frame dst src h) pad rest)
        ∙ report-ether_frame dst src (pad ++ rest) h d s fits)
      (receive_step os fuel (frame ++ rest) true tr g p e)
