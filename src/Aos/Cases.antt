-- ===== src/Aos/Cases.antt =====
-- A kernel on which the dispatcher runs to its end, and its theorem there.
use computer_networks_assign.Prelude.{◌+◌, ◌≡◌, refl, [], if◌then◌else◌, arith}
use computer_networks_assign.Prelude.Int.{ℤ, pos, minus_one, is_neg}
use computer_networks_assign.Os.{trace_of, Call, socket, setsockopt, accept, Trace, Os}
use computer_networks_assign.Os.Life.{Fresh}
use computer_networks_assign.Os.Unseen.{above, above-absent}
use computer_networks_assign.Sockets.{send_fd, serv_listen, inet_serv_listen}
use computer_networks_assign.Sockets.Listen.{RefusesBadFd}
use computer_networks_assign.Aos.{
  Platforms, accepted, sent, relay, relay_signalled, accept_platforms, connect_platforms, dispatch,
  main,
}
use computer_networks_assign.Aos.Handing.{steps, dispatched}
use computer_networks_assign.Aos.Connecting.{connected_to, steps-main}

abbrev answer : Trace → Call → ℤ
answer tr (socket d t) = pos (above tr + 1)
answer tr (setsockopt fd) = if is_neg fd then minus_one else pos 0
answer tr (accept fd) = pos 40
answer tr c = pos 0

abbrev kernel : Os
kernel tr c = record { ret = answer tr c; passed = pos 77; text = [] }

kernel-Fresh : Fresh kernel
kernel-Fresh tr d t = above-absent tr (above tr + 1) (omega arith)

kernel-RefusesBadFd : RefusesBadFd kernel
kernel-RefusesBadFd tr fd h = ground arith

steps-main_example :
    (p : Platforms) × (c1 c2 c3 c4 : ℤ) × (steps (trace_of (main kernel []))
      ≡ dispatched p c1 c2 c3 c4 (connected_to p (steps [])))
unfolding main connect_platforms accept_platforms dispatch relay relay_signalled accepted sent
    send_fd serv_listen inet_serv_listen above
steps-main_example =
    steps-main kernel [] (trace_of (main kernel [])) kernel-RefusesBadFd kernel-Fresh refl
