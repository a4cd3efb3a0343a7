-- ===== src/Aos/Connecting.antt =====
-- The connections of the four servers, and the whole run of the dispatcher.
use Prim.Native.String.{String}
use computer_networks_assign.Prelude.{◌≡◌, ap, ◌∙◌, false, List, ◌∷◌, arith, Bool-cases, inl, inr}
use computer_networks_assign.Prelude.Int.{ℤ, eqz, eqz→eq}
use computer_networks_assign.Os.{Domain, SockType, Trace, Os, done, ◌>>=◌}
use computer_networks_assign.Os.Life.{absent, sock_state, Fresh}
use computer_networks_assign.Os.Bind.{>>=-done}
use computer_networks_assign.Sockets.{serv_listen}
use computer_networks_assign.Sockets.Listen.{RefusesBadFd, serv_listen_Listening}
use computer_networks_assign.Aos.{
  path1, path2, path3, path4, Platforms, accepted, accept_platforms, connect_platforms, dispatch,
  main,
}
use computer_networks_assign.Aos.Handing.{
  Step, took, shared, steps, unix, dispatched, steps-dispatch,
}

steps-serv_listen :
    (name : String) (fd : ℤ) (os : Os) (tr tr' : Trace)
    → serv_listen name os tr ≡ done fd tr'
    → steps tr' ≡ steps tr
unfolding serv_listen steps
steps-serv_listen name fd os tr tr' e = ground arith

serv_listen_other :
    (name : String) (fd x : ℤ) (os : Os) (tr tr' : Trace)
    → eqz x fd ≡ false
    → serv_listen name os tr ≡ done fd tr'
    → sock_state x tr' ≡ sock_state x tr
unfolding serv_listen sock_state
serv_listen_other name fd x os tr tr' h e = ground arith

serv_listen-Fresh :
    (name : String) (fd : ℤ) (os : Os) (tr tr' : Trace)
    → Fresh os
    → serv_listen name os tr ≡ done fd tr'
    → sock_state fd tr ≡ absent
unfolding serv_listen
serv_listen-Fresh name fd os tr tr' f e = ground (arith, f tr Domain.af_unix SockType.stream)

serv_listen_keeps :
    (name other : String) (fd x : ℤ) (os : Os) (tr tr' : Trace)
    → Fresh os
    → serv_listen name os tr ≡ done fd tr'
    → sock_state x tr ≡ unix other
    → sock_state x tr' ≡ unix other
serv_listen_keeps name other fd x os tr tr' f e h = elim (Bool-cases (eqz x fd)) [
  | inr differ ↦ serv_listen_other name fd x os tr tr' differ e ∙ h
  | inl same ↦
      let gone =
        ap (λ y. sock_state y tr) (eqz→eq x fd same) ∙ serv_listen-Fresh name fd os tr tr' f e in
      cc
]

accepted_keeps :
    (fd n x : ℤ) (text : String) (os : Os) (tr tr' : Trace)
    → accepted fd text os tr ≡ done n tr'
    → sock_state x tr' ≡ sock_state x tr
unfolding accepted sock_state
accepted_keeps fd n x text os tr tr' e = ground arith

-- Four sockets that listen on the four paths.
record Listening (a b c d : ℤ) (tr : Trace) : Type 0 where
  on1 : sock_state a tr ≡ unix path1
  on2 : sock_state b tr ≡ unix path2
  on3 : sock_state c tr ≡ unix path3
  on4 : sock_state d tr ≡ unix path4

-- The steps in which the servers connect, each to its own path, and the pid of S4 is read from the shared
-- segment.
abbrev pub connected_to : Platforms → List Step → List Step
connected_to p ss =
    shared p.s4_pid
    ∷ took (unix path4) p.nufd_s4
    ∷ took (unix path3) p.nufd_s3
    ∷ took (unix path2) p.nufd_s2
    ∷ took (unix path1) p.nufd_s1
    ∷ ss

steps-accept_platforms :
    (a b c d : ℤ) (p : Platforms) (os : Os) (tr tr' : Trace)
    → Listening a b c d tr
    → accept_platforms a b c d os tr ≡ done p tr'
    → steps tr' ≡ connected_to p (steps tr)
unfolding accept_platforms accepted steps sock_state
steps-accept_platforms a b c d p os tr tr' l e = ground (arith, l.on1, l.on2, l.on3, l.on4)

listeners :
    (a b c d : ℤ) (os : Os) (tr tr1 tr2 tr3 tr4 : Trace)
    → Fresh os
    → serv_listen path1 os tr ≡ done a tr1
    → serv_listen path2 os tr1 ≡ done b tr2
    → serv_listen path3 os tr2 ≡ done c tr3
    → serv_listen path4 os tr3 ≡ done d tr4
    → Listening a b c d tr4
listeners a b c d os tr tr1 tr2 tr3 tr4 f r1 r2 r3 r4 =
    let l1 = (serv_listen_Listening os tr tr1 path1 a r1).1 in
    let l2 = (serv_listen_Listening os tr1 tr2 path2 b r2).1 in
    let l3 = (serv_listen_Listening os tr2 tr3 path3 c r3).1 in
    let k2 = serv_listen_keeps path2 path1 b a os tr1 tr2 f r2 l1 in
    let k3 = serv_listen_keeps path3 path1 c a os tr2 tr3 f r3 k2 in
    record {
      on1 = serv_listen_keeps path4 path1 d a os tr3 tr4 f r4 k3;
      on2 =
          serv_listen_keeps path4 path2 d b os tr3 tr4 f r4
            (serv_listen_keeps path3 path2 c b os tr2 tr3 f r3 l2);
      on3 = serv_listen_keeps path4 path3 d c os tr3 tr4 f r4 l3;
      on4 = (serv_listen_Listening os tr3 tr4 path4 d r4).1;
    }

steps-connect_platforms :
    (p : Platforms) (os : Os) (tr tr' : Trace)
    → Fresh os
    → connect_platforms os tr ≡ done p tr'
    → steps tr' ≡ connected_to p (steps tr)
unfolding connect_platforms
steps-connect_platforms p os tr tr' f e =
    let (a, tr1, r1, e1) =
      >>=-done (serv_listen path1)
        (λ a. serv_listen path2 >>= λ b.
          serv_listen path3 >>= λ c. serv_listen path4 >>= λ d. accept_platforms a b c d)
        os tr tr' p e in
    let (b, tr2, r2, e2) =
      >>=-done (serv_listen path2)
        (λ b. serv_listen path3 >>= λ c. serv_listen path4 >>= λ d. accept_platforms a b c d) os tr1
        tr' p e1 in
    let (c, tr3, r3, e3) =
      >>=-done (serv_listen path3) (λ c. serv_listen path4 >>= λ d. accept_platforms a b c d) os tr2
        tr' p e2 in
    let (d, tr4, r4, e4) =
      >>=-done (serv_listen path4) (λ d. accept_platforms a b c d) os tr3 tr' p e3 in
    steps-accept_platforms a b c d p os tr4 tr'
      (listeners a b c d os tr tr1 tr2 tr3 tr4 f r1 r2 r3 r4) e4
    ∙ ap (connected_to p) (
        steps-serv_listen path4 d os tr3 tr4 r4
        ∙ steps-serv_listen path3 c os tr2 tr3 r3
        ∙ steps-serv_listen path2 b os tr1 tr2 r2
        ∙ steps-serv_listen path1 a os tr tr1 r1)

-- On a kernel that refuses options on a negative descriptor and does not give out open descriptors,
-- a run of the dispatcher that returns has taken the servers S1 to S4 from their own paths, in this
-- order, has read a number from the shared segment, has then handed to each of the servers, one after the
-- other, the client that came to its port, and has sent SIGUSR1 to the process of that number, and no
-- other, before it handed over the last one. It has handed on and signalled nothing else.
pub steps-main :
    (os : Os) (tr tr' : Trace)
    → RefusesBadFd os
    → Fresh os
    → main os tr ≡ done tt tr'
    → (p : Platforms) × (c1 c2 c3 c4 : ℤ) × (steps tr'
        ≡ dispatched p c1 c2 c3 c4 (connected_to p (steps tr)))
unfolding main
steps-main os tr tr' k f e =
    let (p, mid, first, rest) = >>=-done connect_platforms dispatch os tr tr' tt e in
    let (c1, c2, c3, c4, s) = steps-dispatch p os mid tr' k rest in
    (
      p,
      c1,
      c2,
      c3,
      c4,
      s ∙ ap (dispatched p c1 c2 c3 c4) (steps-connect_platforms p os tr mid f first),
    )
