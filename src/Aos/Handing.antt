-- ===== src/Aos/Handing.antt =====
-- Which client the dispatcher hands to which server.
use Prim.Native.String.{String}
use computer_networks_assign.Prelude.{ℕ, ◌≡◌, ap, ◌∙◌, false, List, [], ◌∷◌, arith}
use computer_networks_assign.Prelude.Int.{ℤ, is_neg}
use computer_networks_assign.Os.{
  Call, Reply, shared_int, accept, sendmsg, kill, sigusr1, path, any_port, af_unix, af_inet, stream,
  Trace, Os, done, ◌>>=◌, ◌>>◌, call,
}
use computer_networks_assign.Os.Life.{SockState, listening, sock_state}
use computer_networks_assign.Os.Bind.{>>-done, >>=-done}
use computer_networks_assign.Sockets.{send_fd, inet_serv_listen}
use computer_networks_assign.Sockets.Listen.{RefusesBadFd, inet_serv_listen_Listening}
use computer_networks_assign.Aos.{Platforms, accepted, sent, relay, relay_signalled, dispatch}

-- What others see of a run: a connection taken from a listening socket, a descriptor handed on, a number
-- read from the shared segment, and a signal.
pub data Step : Type 0 where
  took : SockState → ℤ → Step
  handed : ℤ → ℤ → Step
  shared : ℤ → Step
  signalled : ℤ → ℕ → Step

abbrev step : Call → Reply → Trace → List Step → List Step
step (accept fd) r tr ss = took (sock_state fd tr) r.ret ∷ ss
step shared_int r tr ss = shared r.passed ∷ ss
step (sendmsg fd passed) r tr ss = handed fd passed ∷ ss
step (kill pid signal) r tr ss = signalled pid signal ∷ ss
step c r tr ss = ss

-- The steps of a trace, the newest first.
unfoldable pub steps : Trace → List Step
steps [] = []
steps (e ∷ tr) = step e.call e.reply tr (steps tr)

abbrev pub tcp : ℕ → SockState
tcp port = listening af_inet stream (any_port port)

abbrev pub unix : String → SockState
unix name = listening af_unix stream (path name)

steps-listen :
    (port : ℕ) (sfd : ℤ) (os : Os) (tr tr' : Trace)
    → inet_serv_listen port os tr ≡ done sfd tr'
    → steps tr' ≡ steps tr
unfolding inet_serv_listen steps
steps-listen port sfd os tr tr' e = ground arith

pub steps-accepted :
    (fd n : ℤ) (text : String) (os : Os) (tr tr' : Trace)
    → accepted fd text os tr ≡ done n tr'
    → (is_neg n ≡ false) × (steps tr' ≡ took (sock_state fd tr) n ∷ steps tr)
unfolding accepted steps
steps-accepted fd n text os tr tr' e = ground arith

steps-sent :
    (fd n : ℤ) (os : Os) (tr tr' : Trace)
    → sent fd n os tr ≡ done tt tr'
    → steps tr' ≡ handed fd n ∷ steps tr
unfolding sent send_fd steps
steps-sent fd n os tr tr' e = ground arith

steps-relay :
    (port : ℕ) (text : String) (nufd : ℤ) (os : Os) (tr tr' : Trace)
    → RefusesBadFd os
    → relay port text nufd os tr ≡ done tt tr'
    → (c : ℤ) × (is_neg c ≡ false) × (steps tr' ≡ handed nufd c ∷ took (tcp port) c ∷ steps tr)
unfolding relay
steps-relay port text nufd os tr tr' k e =
    let (sfd, tr1, run1, e1) =
      >>=-done (inet_serv_listen port) (λ sfd. accepted sfd text >>= λ n. sent nufd n) os tr tr' tt
        e in
    let (c, tr2, run2, run3) = >>=-done (accepted sfd text) (λ n. sent nufd n) os tr1 tr' tt e1 in
    let (good, two) = steps-accepted sfd c text os tr1 tr2 run2 in
    (
      c,
      good,
      steps-sent nufd c os tr2 tr' run3
          ∙ ap (λ ss. handed nufd c ∷ ss) two
          ∙ ap (λ st. handed nufd c ∷ took st c ∷ steps tr1)
              (inet_serv_listen_Listening os tr tr1 port sfd k run1).1
          ∙ ap (λ ss. handed nufd c ∷ took (tcp port) c ∷ ss)
              (steps-listen port sfd os tr tr1 run1),
    )

steps-relay_signalled :
    (pid : ℤ) (port : ℕ) (text : String) (nufd : ℤ) (os : Os) (tr tr' : Trace)
    → RefusesBadFd os
    → relay_signalled pid port text nufd os tr ≡ done tt tr'
    → (c : ℤ) × (is_neg c ≡ false)
      × (steps tr' ≡ handed nufd c ∷ signalled pid sigusr1 ∷ took (tcp port) c ∷ steps tr)
unfolding relay_signalled steps
steps-relay_signalled pid port text nufd os tr tr' k e =
    let (sfd, tr1, run1, e1) =
      >>=-done (inet_serv_listen port)
        (λ sfd. accepted sfd text >>= λ n. call (kill pid sigusr1) >> sent nufd n) os tr tr' tt e in
    let (c, tr2, run2, e2) =
      >>=-done (accepted sfd text) (λ n. call (kill pid sigusr1) >> sent nufd n) os tr1 tr' tt e1 in
    let tr3 = record { call = kill pid sigusr1; reply = os tr2 (kill pid sigusr1) } ∷ tr2 in
    let (good, two) = steps-accepted sfd c text os tr1 tr2 run2 in
    (
      c,
      good,
      steps-sent nufd c os tr3 tr' e2
          ∙ ap (λ ss. handed nufd c ∷ signalled pid sigusr1 ∷ ss) two
          ∙ ap (λ st. handed nufd c ∷ signalled pid sigusr1 ∷ took st c ∷ steps tr1)
              (inet_serv_listen_Listening os tr tr1 port sfd k run1).1
          ∙ ap (λ ss. handed nufd c ∷ signalled pid sigusr1 ∷ took (tcp port) c ∷ ss)
              (steps-listen port sfd os tr tr1 run1),
    )

-- The steps of `dispatch`, in the order of the trace: the client of each port goes to the server of
-- that number, and S4 has the signal before it has the descriptor.
abbrev pub dispatched : Platforms → ℤ → ℤ → ℤ → ℤ → List Step → List Step
dispatched p c1 c2 c3 c4 ss =
    handed p.nufd_s4 c4
    ∷ signalled p.s4_pid sigusr1
    ∷ took (tcp 8000) c4
    ∷ handed p.nufd_s3 c3
    ∷ took (tcp 7000) c3
    ∷ handed p.nufd_s2 c2
    ∷ took (tcp 6000) c2
    ∷ handed p.nufd_s1 c1
    ∷ took (tcp 5000) c1
    ∷ ss

pub steps-dispatch :
    (p : Platforms) (os : Os) (tr tr' : Trace)
    → RefusesBadFd os
    → dispatch p os tr ≡ done tt tr'
    → (c1 c2 c3 c4 : ℤ) × (steps tr' ≡ dispatched p c1 c2 c3 c4 (steps tr))
unfolding dispatch
steps-dispatch p os tr tr' k e =
    let m1 = relay 5000 "inet 1 accept" p.nufd_s1 in
    let m2 = relay 6000 "inet 2_1 accept" p.nufd_s2 in
    let m3 = relay 7000 "inet 3 accept" p.nufd_s3 in
    let m4 = relay_signalled p.s4_pid 8000 "inet 4 accept" p.nufd_s4 in
    let (tr1, run1, e1) = >>-done m1 (m2 >> (m3 >> m4)) os tr tr' tt e in
    let (tr2, run2, e2) = >>-done m2 (m3 >> m4) os tr1 tr' tt e1 in
    let (tr3, run3, e3) = >>-done m3 m4 os tr2 tr' tt e2 in
    let (c1, _, s1) = steps-relay 5000 "inet 1 accept" p.nufd_s1 os tr tr1 k run1 in
    let (c2, _, s2) = steps-relay 6000 "inet 2_1 accept" p.nufd_s2 os tr1 tr2 k run2 in
    let (c3, _, s3) = steps-relay 7000 "inet 3 accept" p.nufd_s3 os tr2 tr3 k run3 in
    let (c4, _, s4) =
      steps-relay_signalled p.s4_pid 8000 "inet 4 accept" p.nufd_s4 os tr3 tr' k e3 in
    (c1, c2, c3, c4, cc)
