-- ===== src/Platform/Passing.antt =====
-- What a call, a student's turn and the loop over the students do to the descriptors that came and that
-- were passed on.
use Prim.Native.String.{String}
use computer_networks_assign.Prelude.{
  ℕ, ◌≡◌, ◌⊎◌, Bool, true, not, ◌&&◌, ◌||◌, refl, ap, sym, ◌∙◌, subst, some, List, [], ◌∷◌, ◌++◌,
  get_elem?, leb, if◌then◌else◌, Bool-cases, Option-cases, inl, inr, All, arith,
}
use computer_networks_assign.Prelude.Int.{ℤ, pos, negsuc, is_neg, eqz}
use computer_networks_assign.Os.{Call, Event, Reply, Trace, Os, done, pure, read, write, recvmsg}
use computer_networks_assign.Os.Bind.{>>-done}
use computer_networks_assign.Sockets.{send_fd, recv_fd, serv_listen}
use computer_networks_assign.Inetd.{FdSet}
use computer_networks_assign.At.Routed.{Passed, passings}
use computer_networks_assign.Platform.{
  cli_conn, Links, connect_links, Student, graded, pass_on, to_platform, interview, scan, Server,
  from_at, from_platform,
}

-- The connections over which students come: from at.c, and from the first and the third platform.
abbrev pub is_incoming : Links → ℤ → Bool
is_incoming s channel = eqz channel s.ufd || (eqz channel s.ufdr1 || eqz channel s.ufdr3)

-- The descriptors that came over these three connections, in order. What is received over another
-- channel is left out.
abbrev taken : Links → Call → Reply → List ℤ → List ℤ
taken s (recvmsg channel) r fds =
    if not (is_neg r.ret) && is_incoming s channel then fds ++ r.passed ∷ [] else fds
taken s c r fds = fds

unfoldable pub received : Links → Trace → List ℤ
received s [] = []
received s (e ∷ tr) = taken s e.call e.reply (received s tr)

abbrev pub In : List ℤ → ℤ → Type 0
In fds fd = (i : ℕ) × (get_elem? fds i ≡ some fd)

-- The descriptor is one of those that the platform holds, and went to one of the other platforms.
abbrev pub IsForwarded : Links → List ℤ → Passed → Type 0
IsForwarded s fds p =
    ((i : ℕ) × (get_elem? fds i ≡ some p.student))
    × ((p.channel ≡ s.nufd_r2) ⊎ (p.channel ≡ s.nufd_r3))

-- Two traces in which the same descriptors came and were passed on.
abbrev pub Same : Links → Trace → Trace → Type 0
Same s tr tr' = (received s tr' ≡ received s tr) × (passings tr' ≡ passings tr)

cli_conn-Same :
    (s : Links) (name server : String) (fd : ℤ) (os : Os) (tr tr' : Trace)
    → cli_conn name server os tr ≡ done fd tr'
    → Same s tr tr'
unfolding cli_conn received passings
cli_conn-Same s name server fd os tr tr' e = (ground arith, ground arith)

serv_listen-Same :
    (s : Links) (name : String) (fd : ℤ) (os : Os) (tr tr' : Trace)
    → serv_listen name os tr ≡ done fd tr'
    → Same s tr tr'
unfolding serv_listen received passings
serv_listen-Same s name fd os tr tr' e = (ground arith, ground arith)

-- At most the one descriptor was passed on.
abbrev Step : Links → ℤ → Trace → Trace → Type 0
Step s fd tr tr' =
    (received s tr' ≡ received s tr)
    × ((passings tr' ≡ passings tr)
        ⊎ ((channel : ℤ) × ((channel ≡ s.nufd_r2) ⊎ (channel ≡ s.nufd_r3))
            × (passings tr' ≡ record { channel = channel; student = fd } ∷ passings tr)))

to_platform-Step :
    (s : Links) (fd n : ℤ) (os : Os) (tr tr' : Trace)
    → to_platform s fd n os tr ≡ done tt tr'
    → Step s fd tr tr'
unfolding received passings send_fd
to_platform-Step s fd n os tr tr' e = elim (Bool-cases (eqz n (pos 1))) [
  | inl one ↦ (ground arith, inr (s.nufd_r2, inl refl, ground arith))
  | inr h ↦ elim (Bool-cases (eqz n (pos 3))) [
    | inl three ↦ (ground arith, inr (s.nufd_r3, inr refl, ground arith))
    | inr other ↦ (ground arith, inl (ground arith))
  ]
]

pass_on-Step :
    (layout : Student → List ℕ) (s : Links) (fd : ℤ) (st : Student) (os : Os) (tr tr' : Trace)
    (z : ℤ)
    → st.rounds ≡ z
    → pass_on layout s fd st os tr ≡ done tt tr'
    → Step s fd tr tr'
unfolding pass_on received passings
pass_on-Step layout s fd st os tr tr' (negsuc k) z e = absurd (ground arith)
pass_on-Step layout s fd st os tr tr' (pos k) z e = elim (Bool-cases (leb k 2)) [
  | inr high ↦ (ground arith, inl (ground arith))
  | inl low ↦ elim (Option-cases (get_elem? st.sequence k)) [
    | inl missing ↦ absurd (ground arith)
    | inr (n, found) ↦ to_platform-Step s fd n os tr tr' (ground arith)
  ]
]

interview-Step :
    (parse : List ℕ → Student) (layout : Student → List ℕ) (s : Links) (fd : ℤ) (os : Os)
    (tr tr' : Trace)
    → interview parse layout s fd os tr ≡ done tt tr'
    → Step s fd tr tr'
unfolding interview received passings
interview-Step parse layout s fd os tr tr' e =
    elim (Option-cases (graded fd (parse (os tr (read fd)).text))) [
      | inl bad ↦ absurd (ground arith)
      | inr (st, good) ↦
          let r : Event = record { call = read fd; reply = os tr (read fd) } in
          let w : Event = record {
            call = write fd (layout st);
            reply = os (r ∷ tr) (write fd (layout st));
          } in
          pass_on-Step layout s fd st os (w ∷ r ∷ tr) tr' st.rounds refl (ground arith)
    ]

pub from_at-Same :
    (s : Links) (channel : ℤ) (v v' : Server) (os : Os) (tr tr' : Trace)
    → is_incoming s channel ≡ true
    → from_at channel v os tr ≡ done v' tr'
    → v.nsfd ≡ received s tr
    → (v'.nsfd ≡ received s tr')
      × (passings tr' ≡ passings tr)
      × ((fd : ℤ) × (v'.nsfd ≡ v.nsfd ++ fd ∷ []))
unfolding from_at recv_fd received passings
from_at-Same s channel v v' os tr tr' i e h =
    (ground arith, ground arith, ((os tr (recvmsg channel)).passed, ground arith))

pub from_platform-Same :
    (s : Links) (channel : ℤ) (v v' : Server) (os : Os) (tr tr' : Trace)
    → is_incoming s channel ≡ true
    → from_platform channel v os tr ≡ done v' tr'
    → v.nsfd ≡ received s tr
    → (v'.nsfd ≡ received s tr')
      × (passings tr' ≡ passings tr)
      × ((fd : ℤ) × (v'.nsfd ≡ v.nsfd ++ fd ∷ []))
unfolding from_platform recv_fd received passings
from_platform-Same s channel v v' os tr tr' i e h =
    (ground arith, ground arith, ((os tr (recvmsg channel)).passed, ground arith))

pub connect_links-Same :
    (s : Links) (os : Os) (tr' : Trace) → connect_links os [] ≡ done s tr' → Same s [] tr'
unfolding connect_links cli_conn serv_listen received passings
connect_links-Same s os tr' e = (ground arith, ground arith)

forwarded :
    (s : Links) (fd : ℤ) (whole : List ℤ) (tr mid : Trace)
    → Step s fd tr mid
    → In whole fd
    → All (IsForwarded s whole) (passings tr)
    → (received s mid ≡ received s tr) × All (IsForwarded s whole) (passings mid)
forwarded s fd whole tr mid (same, inl none_passed) m k =
    (same, subst (All (IsForwarded s whole)) (sym none_passed) k)
forwarded s fd whole tr mid (same, inr (channel, way, one)) m k =
    (same, subst (All (IsForwarded s whole)) (sym one) ((m, way), k))

pub scan-Forwarded :
    (parse : List ℕ → Student) (layout : Student → List ℕ) (s : Links) (ready : FdSet)
    (whole fds : List ℤ) (os : Os) (tr tr' : Trace)
    → scan parse layout s ready fds os tr ≡ done tt tr'
    → All (In whole) fds
    → All (IsForwarded s whole) (passings tr)
    → (received s tr' ≡ received s tr) × All (IsForwarded s whole) (passings tr')
unfolding scan
scan-Forwarded parse layout s ready whole [] os tr tr' e m k =
    let same : tr ≡ tr' = ground arith in
    (ap (received s) (sym same), subst (λ t. All (IsForwarded s whole) (passings t)) same k)
scan-Forwarded parse layout s ready whole (fd ∷ fds) os tr tr' e (m, ms) k =
    let (mid, first, rest) =
      >>-done (if ready fd then interview parse layout s fd else pure tt)
        (scan parse layout s ready fds) os tr tr' tt e in
    let (same, k') : (received s mid ≡ received s tr) × All (IsForwarded s whole) (passings mid) =
      elim (Bool-cases (ready fd)) [
        | inr idle ↦
            let ends : tr ≡ mid = ground arith in
            (ap (received s) (sym ends), subst (λ t. All (IsForwarded s whole) (passings t)) ends k)
        | inl set ↦
            forwarded s fd whole tr mid (interview-Step parse layout s fd os tr mid (ground arith))
              m k
      ] in
    let (same', k'') = scan-Forwarded parse layout s ready whole fds os mid tr' rest ms k' in
    (same' ∙ same, k'')
