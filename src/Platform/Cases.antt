-- ===== src/Platform/Cases.antt =====
-- A student that at.c passes on, and a round with the student.
use computer_networks_assign.Prelude.{
  ℕ, ◌+◌, ◌&&◌, ◌≡◌, ◌↔◌, refl, true, List, [], ◌∷◌, length, replicate,
}
use computer_networks_assign.Prelude.Int.{ℤ, pos, negsuc, ◌+ℤ◌, eqz}
use computer_networks_assign.Os.{
  accept, read, recvmsg, socket, Trace, Os, Outcome, done, exited, crashed, trace_of,
}
use computer_networks_assign.Inetd.{FdSet}
use computer_networks_assign.Groups.{c_string}
use computer_networks_assign.Sockets.{send_fd, recv_fd, serv_listen}
use computer_networks_assign.At.{watch, highest}
use computer_networks_assign.At.Routed.{passings}
use computer_networks_assign.Platform.{
  cli_conn, Links, connect_links, Student, pass_on, interview, scan, Server, started, from_at,
  after_select, round,
}
use computer_networks_assign.Platform.Interviews.{HasCrashed, unterminated, is_bad, interview-crash}

-- A name and a text that end.
abbrev texts : List ℕ
texts = b'a' ∷ replicate 199 0

abbrev kernel : Os
kernel tr (accept fd) = record { ret = pos (20 + length tr); passed = pos 0; text = [] }
kernel tr (socket d t) = record { ret = pos (10 + length tr); passed = pos 0; text = [] }
kernel tr (recvmsg fd) = record { ret = pos 2; passed = pos 77; text = [] }
kernel tr (read fd) = record { ret = pos 220; passed = pos 0; text = texts }
kernel tr c = record { ret = pos 0; passed = pos 0; text = [] }

-- The student has had a round, and goes to the third platform next.
abbrev parse : List ℕ → Student
parse bytes = record {
  texts = bytes;
  rounds = pos 0;
  sequence = pos 1 ∷ pos 3 ∷ pos 2 ∷ [];
  score = pos 5;
}

abbrev layout : Student → List ℕ
layout st = st.texts

abbrev value_of : {A : Type 0} → A → Outcome A → A
value_of v (done w tr) = w
value_of v (exited n tr) = v
value_of v (crashed tr) = v

abbrev links : Links
links =
    value_of
      (record { ufd = pos 0; ufdr1 = pos 0; ufdr3 = pos 0; nufd_r2 = pos 0; nufd_r3 = pos 0 })
      (connect_links kernel [])

abbrev connected : Trace
connected = trace_of (connect_links kernel [])

-- First at.c is readable, then the student.
abbrev comes : ℤ → FdSet → FdSet
comes maxfd set fd = eqz fd links.ufd && set fd

abbrev one_student : Outcome Server
one_student = round parse layout comes links started kernel connected

abbrev talks : ℤ → FdSet → FdSet
talks maxfd set fd = eqz fd (pos 77) && set fd

abbrev seated : Server
seated = value_of started one_student

abbrev interviewed : Outcome Server
interviewed = round parse layout talks links seated kernel (trace_of one_student)

platform_run :
    passings (trace_of interviewed) ≡ record { channel = links.nufd_r3; student = pos 77 } ∷ []
unfolding connect_links cli_conn serv_listen round after_select highest watch from_at recv_fd scan
    interview c_string pass_on send_fd passings ◌+ℤ◌
platform_run = refl

-- A student that claims to have had fewer than no rounds
abbrev parse_negative : List ℕ → Student
parse_negative bytes = record {
  texts = bytes;
  rounds = negsuc 2;
  sequence = pos 1 ∷ pos 3 ∷ pos 2 ∷ [];
  score = pos 5;
}

interview-crash_example :
    HasCrashed (interview parse_negative layout links (pos 77) kernel [])
    ↔ (is_bad (pos 77) (parse_negative texts) ≡ true)
interview-crash_example = interview-crash parse_negative layout links (pos 77) kernel [] refl

negative_is_bad : is_bad (pos 77) (parse_negative texts) ≡ true
unfolding ◌+ℤ◌ unterminated
negative_is_bad = refl
