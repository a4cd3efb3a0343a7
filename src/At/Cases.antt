-- ===== src/At/Cases.antt =====
-- A student that connects and is passed to the first platform, and the theorem there.
use computer_networks_assign.Prelude.{ℕ, ◌+◌, ◌&&◌, ◌≡◌, refl, List, [], ◌∷◌, length}
use computer_networks_assign.Prelude.Int.{ℤ, pos, eqz}
use computer_networks_assign.Os.{
  accept, read, socket, Trace, Os, Outcome, done, exited, crashed, trace_of,
}
use computer_networks_assign.Inetd.{FdSet}
use computer_networks_assign.Groups.{c_string}
use computer_networks_assign.Sockets.{send_fd, serv_listen, inet_serv_listen}
use computer_networks_assign.At.{
  Links, connect_platforms, Server, started, new_student, Student, serve_student, scan, watch,
  highest, after_select, round,
}
use computer_networks_assign.At.Routed.{passings}

abbrev kernel : Os
kernel tr (accept fd) = record { ret = pos (20 + length tr); passed = pos 0; text = [] }
kernel tr (socket d t) = record { ret = pos (10 + length tr); passed = pos 0; text = [] }
kernel tr (read fd) = record { ret = pos 2; passed = pos 0; text = b'a' ∷ 0 ∷ [] }
kernel tr c = record { ret = pos 0; passed = pos 0; text = [] }

abbrev value_of : {A : Type 0} → A → Outcome A → A
value_of v (done w tr) = w
value_of v (exited n tr) = v
value_of v (crashed tr) = v

abbrev links : Links
links =
    value_of (record { sfd = pos 0; nufd_r1 = pos 0; nufd_r2 = pos 0; nufd_r3 = pos 0 })
      (connect_platforms kernel [])

abbrev connected : Trace
connected = trace_of (connect_platforms kernel [])

abbrev layout : Student → List ℕ
layout st = st.text

-- First the socket for students is readable, then the student.
abbrev connects : ℤ → FdSet → FdSet
connects maxfd set fd = eqz fd links.sfd && set fd

abbrev one_student : Outcome Server
one_student = round layout connects links started kernel connected

abbrev talks : ℤ → FdSet → FdSet
talks maxfd set fd = eqz fd (pos 39) && set fd

abbrev seated : Server
seated = value_of started one_student

abbrev passed_on : Outcome Server
passed_on = round layout talks links seated kernel (trace_of one_student)

students_run :
    passings (trace_of passed_on) ≡ record { channel = links.nufd_r1; student = pos 39 } ∷ []
unfolding connect_platforms inet_serv_listen serv_listen round after_select highest watch
    new_student scan serve_student send_fd c_string passings
students_run = refl
