-- ===== src/Arp/Cases.antt =====
-- A request and a reply on a network of two hosts.
use computer_networks_assign.Prelude.{
  ℕ, ◌≡◌, refl, Bool, true, false, List, [], ◌∷◌, ◌++◌, length, replicate, arith,
}
use computer_networks_assign.Prelude.Int.{ℤ, pos, negsuc}
use computer_networks_assign.Os.{
  Reply, Trace, Os, Outcome, done, socket, recv, sendto, malloc, ioctl_hwaddr, if_nametoindex,
  inet_pton, getaddrinfo, af_packet, raw,
}
use computer_networks_assign.Arp.{
  ArpHdr, request, ether_frame, header_bytes, broadcast, eth_p_arp, eth_p_ip, arpop_reply,
  ip_maxpacket, report, is_reply, await_reply, send_request, receive_reply,
}
use computer_networks_assign.Arp.Frames.{mac, ip, IsHdr, report-ether_frame}
use computer_networks_assign.Arp.Sending.{HasAsked, send_request-HasAsked}
use computer_networks_assign.Arp.Listening.{Hears, at_last, other, interrupted, receive_reply-Hears}

abbrev here : List ℕ
here = 2 ∷ 0 ∷ 0 ∷ 0 ∷ 0 ∷ 1 ∷ []

abbrev there : List ℕ
there = 2 ∷ 0 ∷ 0 ∷ 0 ∷ 0 ∷ 9 ∷ []

abbrev ip_here : List ℕ
ip_here = 11 ∷ 12 ∷ 13 ∷ 14 ∷ []

abbrev ip_there : List ℕ
ip_there = 192 ∷ 168 ∷ 29 ∷ 1 ∷ []

abbrev answer : ArpHdr
answer = record {
  htype = 1;
  ptype = eth_p_ip;
  hlen = 6;
  plen = 4;
  opcode = arpop_reply;
  sender_mac = there;
  sender_ip = ip_there;
  target_mac = here;
  target_ip = ip_here;
}

answer-IsHdr : IsHdr answer
answer-IsHdr = record {
  htype = omega arith;
  ptype = omega arith;
  opcode = omega arith;
  sender_mac = mac 2 0 0 0 0 9;
  sender_ip = ip 192 168 29 1;
  target_mac = mac 2 0 0 0 0 1;
  target_ip = ip 11 12 13 14;
}

abbrev reply : ℤ → List ℕ → Reply
reply n text = record { ret = n; passed = pos 4; text = text }

-- The host of the sender; a request of another host, a signal and the answer arrive, one after the other.
abbrev heard_of : Trace → Reply
heard_of (_ ∷ _ ∷ []) =
    reply (pos 42) (ether_frame broadcast there (request there ip_there ip_here))
heard_of (_ ∷ _ ∷ _ ∷ []) = reply (negsuc 0) []
heard_of _ = reply (pos 42) (ether_frame here there answer)

abbrev host : Os
host tr (socket d t) = reply (pos 3) []
host tr (malloc n) = reply (pos 1) []
host tr (ioctl_hwaddr sd i) = reply (pos 0) (here ++ replicate 8 0)
host tr (if_nametoindex i) = reply (pos 2) []
host tr (inet_pton a) = reply (pos 1) ip_here
host tr (getaddrinfo a) = reply (pos 0) (ip_there ++ replicate 4 0)
host tr (sendto sd frame) = reply (pos (length frame)) []
host tr (recv sd) = heard_of tr
host tr _ = reply (pos 0) []

report-ether_frame_example :
    report (ether_frame here there answer ++ replicate 18 0)
    ≡ record { destination = here; source = there; type_code = eth_p_arp; header = answer }
report-ether_frame_example =
    report-ether_frame here there (replicate 18 0) answer (mac 2 0 0 0 0 1) (mac 2 0 0 0 0 9)
      answer-IsHdr

send_request-HasAsked_example : HasAsked (send_request host [])
send_request-HasAsked_example = send_request-HasAsked host

heard : Hears host (pos 3) (ether_frame here there answer ++ []) 3 (
    record { call = socket af_packet raw; reply = reply (pos 3) [] }
    ∷ record { call = malloc ip_maxpacket; reply = reply (pos 1) [] }
    ∷ [])
unfolding ether_frame header_bytes
heard = other refl (omega arith) refl (interrupted refl refl (at_last refl refl))

receive_reply-Hears_example :
    (tr : Trace) × (receive_reply 3 host []
      ≡ done
          (
            record { destination = here; source = there; type_code = eth_p_arp; header = answer },
            true,
          )
          tr)
receive_reply-Hears_example =
    receive_reply-Hears host 3 3 here there [] answer refl refl (mac 2 0 0 0 0 1) (mac 2 0 0 0 0 9)
      answer-IsHdr refl heard (omega arith)

-- A frame of 14 bytes leaves the bytes of the frame before it in the buffer: behind an IP frame whose
-- bytes 20 and 21 are 0 and 2 it ends the loop, although no ARP reply has arrived.
abbrev ip_frame : List ℕ
ip_frame = replicate 12 1 ++ (8 ∷ 0 ∷ replicate 6 0 ++ (0 ∷ 2 ∷ replicate 20 7))

abbrev short_frame : List ℕ
short_frame = replicate 12 1 ++ (8 ∷ 6 ∷ [])

abbrev stale : Os
stale [] (recv sd) = reply (pos 42) ip_frame
stale tr (recv sd) = reply (pos 14) short_frame
stale tr _ = reply (pos 0) []

abbrev verdict : Outcome (List ℕ × Bool) → Bool
verdict (done (f, b) tr) = b
verdict _ = false

stale_reply :
    (is_reply ip_frame ≡ false)
    × (is_reply short_frame ≡ false)
    × (verdict (await_reply 2 (pos 3) (replicate 60 0) stale []) ≡ true)
unfolding await_reply
stale_reply = (refl, refl, refl)
