-- ===== src/Arp/Sending.antt =====
-- send.c: one request on the wire, or none and an exit.
use Prim.Native.String.{String}
use computer_networks_assign.Prelude.{
  ℕ, ◌≡◌, refl, Bool, true, false, List, [], ◌∷◌, ◌++◌, take, if◌then◌else◌, arith, suc, subst, sym,
}
use computer_networks_assign.Prelude.Int.{ℤ, pos, is_zero, ltz}
use computer_networks_assign.Os.{
  Call, Trace, Os, Outcome, done, exited, crashed, M, sendto, ioctl_hwaddr, inet_pton, getaddrinfo,
  if_nametoindex, die_if, ◌>>=◌, sys, pure, ◌>>◌,
}
use computer_networks_assign.Arp.{
  send_request, transmit, addresses, hardware_address, allocations, allocate_ustrmem, request,
  ether_frame, broadcast, ip_maxpacket,
}

-- The frame of a successful `sendto`
abbrev frame_of : Call → ℤ → List (List ℕ)
frame_of (sendto sd frame) r = if ltz (pos 0) r then frame ∷ [] else []
frame_of _ r = []

-- The frames that went out, the newest first.
unfoldable pub frames_sent : Trace → List (List ℕ)
frames_sent [] = []
frames_sent (e ∷ tr) = frame_of e.call e.reply.ret ++ frames_sent tr

-- What the kernel and the resolver said last.
pub record Known : Type 0 where
  pub mac : List ℕ
  pub source : List ℕ
  pub target : List ℕ

abbrev text_after : Call → List ℕ → Known → Known
text_after (ioctl_hwaddr sd i) text k = record {
  mac = take 6 text;
  source = k.source;
  target = k.target;
}
text_after (inet_pton a) text k = record { mac = k.mac; source = text; target = k.target }
text_after (getaddrinfo a) text k = record { mac = k.mac; source = k.source; target = take 4 text }
text_after _ text k = k

unfoldable pub known : Trace → Known
known [] = record { mac = []; source = []; target = [] }
known (e ∷ tr) = text_after e.call e.reply.text (known tr)

-- The request with what is known.
abbrev pub request_frame : Known → List ℕ
request_frame k = ether_frame broadcast k.mac (request k.mac k.source k.target)

-- A run that has sent nothing so far: it has ended with status 1, or it goes on with the property `Q`.
abbrev Silent : {A : Type 0} → (A → Trace → Type 0) → Outcome A → Type 0
Silent Q (done a tr) = (frames_sent tr ≡ []) × Q a tr
Silent Q (exited n tr) = (n ≡ 1) × (frames_sent tr ≡ [])
Silent Q (crashed tr) = ⊥

-- One request with what was known has gone out, or nothing has and the status is 1.
abbrev pub HasAsked : Outcome (Unit {0}) → Type 0
HasAsked (done _ tr) = frames_sent tr ≡ request_frame (known tr) ∷ []
HasAsked (exited n tr) = (n ≡ 1) × (frames_sent tr ≡ [])
HasAsked (crashed tr) = ⊥

-- A step that sends nothing, before one that ends as `P` says.
after-Silent :
    {A B : Type 0} (Q : A → Trace → Type 0) (P : Outcome B → Type 0) (m : M A) (f : A → M B)
    (os : Os) (tr : Trace)
    → ((tr : Trace) → frames_sent tr ≡ [] → P (exited 1 tr))
    → Silent Q (m os tr)
    → ((a : A) (tr : Trace) → frames_sent tr ≡ [] → Q a tr → P (f a os tr))
    → P ((m >>= f) os tr)
after-Silent {B = B} Q P m f os tr e q k = outcome (m os tr) q
  where
    outcome :
        (o : Outcome _)
        → Silent Q o
        → P (elim o [
          | done a tr' ↦ f a os tr'
          | exited n tr' ↦ exited n tr'
          | crashed tr' ↦ crashed tr'
        ])
    outcome (done a tr') (s, x) = k a tr' s x
    outcome (exited n tr') (h, s) = subst (λ v. P (exited v tr')) (sym h) (e tr' s)
    outcome (crashed tr') x = elim x [ ]

die_if-Silent :
    {B : Type 0} (P : Outcome B → Type 0) (b : Bool) (text : String) (k : M B) (os : Os)
    (tr : Trace)
    → ((tr : Trace) → frames_sent tr ≡ [] → P (exited 1 tr))
    → frames_sent tr ≡ []
    → (b ≡ false → P (k os tr))
    → P ((die_if b text 1 >> k) os tr)
unfolding frames_sent
die_if-Silent P true text k os tr e s p = e _ s
die_if-Silent P false text k os tr e s p = p refl

exits :
    {A : Type 0} (Q : A → Trace → Type 0) (tr : Trace)
    → frames_sent tr ≡ []
    → Silent Q (exited 1 tr)
exits Q tr s = (refl, s)

allocate-Silent :
    (n : ℕ) (os : Os) (tr : Trace)
    → frames_sent tr ≡ []
    → Silent (λ _ _. Unit {0}) (allocate_ustrmem (pos (suc n)) os tr)
unfolding allocate_ustrmem frames_sent
allocate-Silent n os tr s = ground arith

allocate_then :
    (n : ℕ) (f : List ℕ → M (Unit {0})) (os : Os) (tr : Trace)
    → frames_sent tr ≡ []
    → ((a : List ℕ) (tr : Trace) → frames_sent tr ≡ [] → Silent (λ _ _. Unit {0}) (f a os tr))
    → Silent (λ _ _. Unit {0}) ((allocate_ustrmem (pos (suc n)) >>= f) os tr)
allocate_then n f os tr s k =
    after-Silent (λ _ _. Unit {0}) (Silent (λ _ _. Unit {0})) (allocate_ustrmem (pos (suc n))) f os
      tr (exits {A = Unit {0}} (λ _ _. Unit {0})) (allocate-Silent n os tr s) (λ a tr s _. k a tr s)

allocations-Silent :
    (os : Os) (tr : Trace) → frames_sent tr ≡ [] → Silent (λ _ _. Unit {0}) (allocations os tr)
unfolding allocations
allocations-Silent os tr s =
    let f : List ℕ → M (Unit {0}) = λ _. pure tt in
    let e : List ℕ → M (Unit {0}) = λ _. allocate_ustrmem (pos 16) >>= f in
    let d : List ℕ → M (Unit {0}) = λ _. allocate_ustrmem (pos 40) >>= e in
    let c : List ℕ → M (Unit {0}) = λ _. allocate_ustrmem (pos 40) >>= d in
    let b : List ℕ → M (Unit {0}) = λ _. allocate_ustrmem (pos ip_maxpacket) >>= c in
    let a : List ℕ → M (Unit {0}) = λ _. allocate_ustrmem (pos 6) >>= b in
    allocate_then 5 a os tr s (λ _ tr s. allocate_then 5 b os tr s (λ _ tr s.
      allocate_then 65534 c os tr s (λ _ tr s. allocate_then 39 d os tr s (λ _ tr s.
        allocate_then 39 e os tr s (λ _ tr s. allocate_then 15 f os tr s (λ _ tr s. (s, tt)))))))

abbrev Mac : List ℕ → Trace → Type 0
Mac m tr = (known tr).mac ≡ m

abbrev Ips : List ℕ → List ℕ × List ℕ → Trace → Type 0
Ips m ips tr = ((known tr).mac ≡ m) × ((known tr).source ≡ ips.0) × ((known tr).target ≡ ips.1)

hardware_address-Silent :
    (i : String) (os : Os) (tr : Trace)
    → frames_sent tr ≡ []
    → Silent Mac (hardware_address i os tr)
unfolding hardware_address frames_sent known
hardware_address-Silent i os tr s = ground arith

addresses-Silent :
    (a b : String) (m : List ℕ) (os : Os) (tr : Trace)
    → frames_sent tr ≡ []
    → (known tr).mac ≡ m
    → Silent (Ips m) (addresses a b os tr)
unfolding addresses frames_sent known
addresses-Silent a b m os tr s h = ground arith

transmit-HasAsked :
    (os : Os) (tr : Trace)
    → frames_sent tr ≡ []
    → HasAsked (transmit (request_frame (known tr)) os tr)
unfolding transmit frames_sent known
transmit-HasAsked os tr s = ground arith

exited-HasAsked : (tr : Trace) → frames_sent tr ≡ [] → HasAsked (exited 1 tr)
exited-HasAsked tr s = (refl, s)

-- send.c from the two texts of addresses on.
abbrev with_addresses : List ℕ → M (Unit {0})
with_addresses m = addresses "11.12.13.14" "192.168.29.1" >>= λ ips.
    transmit (ether_frame broadcast m (request m ips.0 ips.1))

with_addresses-HasAsked :
    (m : List ℕ) (os : Os) (tr : Trace)
    → frames_sent tr ≡ []
    → (known tr).mac ≡ m
    → HasAsked (with_addresses m os tr)
with_addresses-HasAsked m os tr s h =
    after-Silent (Ips m) HasAsked (addresses "11.12.13.14" "192.168.29.1")
      (λ ips. transmit (ether_frame broadcast m (request m ips.0 ips.1))) os tr exited-HasAsked
      (addresses-Silent _ _ m os tr s h)
      (λ ips tr s (a, b, c).
        subst (λ frame. HasAsked (transmit frame os tr)) (frame_eq ips tr a b c)
          (transmit-HasAsked os tr s))
  where
    frame_eq :
        (ips : List ℕ × List ℕ) (tr : Trace)
        → (known tr).mac ≡ m
        → (known tr).source ≡ ips.0
        → (known tr).target ≡ ips.1
        → request_frame (known tr) ≡ ether_frame broadcast m (request m ips.0 ips.1)
    frame_eq ips tr a b c = cc

abbrev with_mac : List ℕ → M (Unit {0})
with_mac m = sys (if_nametoindex "eno1") >>= λ index.
    die_if (is_zero index) "if_nametoindex" 1 >> with_addresses m

with_mac-HasAsked :
    (m : List ℕ) (os : Os) (tr : Trace)
    → frames_sent tr ≡ []
    → (known tr).mac ≡ m
    → HasAsked (with_mac m os tr)
unfolding frames_sent known
with_mac-HasAsked m os tr s h =
    die_if-Silent HasAsked (is_zero (os tr (if_nametoindex "eno1")).ret) "if_nametoindex"
      (with_addresses m) os
      (record { call = if_nametoindex "eno1"; reply = os tr (if_nametoindex "eno1") } ∷ tr)
      exited-HasAsked s (λ _. with_addresses-HasAsked m os _ s h)

-- Whatever the operating system answers, send.c ends with status 1 and no frame sent, or it returns after
-- exactly one successful `sendto`: that of the broadcast request with the hardware address that the
-- `ioctl` gave and the two protocol addresses that `inet_pton` and `getaddrinfo` gave.
pub send_request-HasAsked : (os : Os) → HasAsked (send_request os [])
unfolding send_request frames_sent
send_request-HasAsked os =
    after-Silent (λ _ _. Unit {0}) HasAsked allocations (λ _. hardware_address "eno1" >>= with_mac)
      os [] exited-HasAsked (allocations-Silent os [] refl)
      (λ _ tr s _.
        after-Silent Mac HasAsked (hardware_address "eno1") with_mac os tr exited-HasAsked
          (hardware_address-Silent "eno1" os tr s) (λ m tr s h. with_mac-HasAsked m os tr s h))
