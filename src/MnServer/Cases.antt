-- ===== src/MnServer/Cases.antt =====
-- Clients of the servers on a range of ports.
use computer_networks_assign.Prelude.{
  ℕ, ◌+◌, ◌≤◌, ◌≡◌, refl, true, false, Bool, List, [], ◌∷◌, ltb, if◌then◌else◌, arith,
}
use computer_networks_assign.Prelude.Int.{ℤ, pos, is_zero, ltz}
use computer_networks_assign.Os.{
  trace_of, Call, socket, recv, accept, Trace, Os, Reply, Outcome, done, exited, crashed,
}
use computer_networks_assign.Os.Life.{Fresh}
use computer_networks_assign.Os.Unseen.{above, above-absent}
use computer_networks_assign.Inetd.{FdSet}
use computer_networks_assign.MnServer.{
  upper, answer_with, func_round, func, open_ports, start_thread, scan, tell_ports, round,
}
use computer_networks_assign.MnServer.Echo.{
  Message, received, answered, Echoes, func-Echoes, receptions,
}
use computer_networks_assign.MnServer.Clients.{Served, round-Served}

abbrev value_of : {A : Type 0} → A → Outcome A → A
value_of v (done w tr) = w
value_of v (exited n tr) = v
value_of v (crashed tr) = v

-- A client that sends "aZ1" twice and then closes the connection.
abbrev reply_to : ℕ → Call → Reply
reply_to n (recv fd) =
    if ltb n 2
    then record { ret = pos 3; passed = pos 0; text = b'a' ∷ b'Z' ∷ b'1' ∷ [] }
    else record { ret = pos 0; passed = pos 0; text = [] }
reply_to n c = record { ret = pos 0; passed = pos 0; text = [] }

abbrev two_messages : Os
two_messages tr c = reply_to (receptions tr) c

abbrev talk : Outcome Bool
talk = func upper 3 (pos 5) two_messages []

abbrev upper_text : Message
upper_text = record { fd = pos 5; text = b'A' ∷ b'Z' ∷ b'1' ∷ [] }

talk_run : answered (trace_of talk) ≡ upper_text ∷ upper_text ∷ []
unfolding func func_round answer_with receptions answered upper
talk_run = refl

func-Echoes_example : Echoes 1 (pos 5) (trace_of talk)
unfolding func func_round answer_with receptions answered received
func-Echoes_example = func-Echoes 1 3 (pos 5) false two_messages [] (trace_of talk) refl (tt, refl)

closes : (t : Trace) → 2 ≤ receptions t → is_zero (two_messages t (recv (pos 5))).ret ≡ true
closes t h = ground arith

abbrev answer_to : Trace → Call → ℤ
answer_to tr (socket d t) = pos (above tr + 1)
answer_to tr (accept fd) = pos 40
answer_to tr c = pos 0

abbrev kernel : Os
kernel tr c = record { ret = answer_to tr c; passed = pos 0; text = [] }

kernel-Fresh : Fresh kernel
kernel-Fresh tr d t = above-absent tr (above tr + 1) (omega arith)

abbrev opened : Outcome (List ℤ)
opened = open_ports 5000 3 kernel []

abbrev ready : FdSet
ready fd = ltz fd (pos 10)

abbrev one_round : Outcome (FdSet × ℕ)
one_round = round b'1' 2 (pos 4) [] 7 (pos 5 ∷ pos 20 ∷ []) (pos 2) ready kernel []

round-Served_example :
    Served 2
      (pos 5 ∷ pos 20 ∷ [])
      7
      (value_of (ready, 0) one_round).1
      (value_of (ready, 0) one_round).0
      []
      (trace_of one_round)
    × ((value_of (ready, 0) one_round).0 (pos 4) ≡ true)
unfolding round scan start_thread tell_ports
round-Served_example =
    round-Served b'1' 2 (pos 4) [] 7 (pos 5 ∷ pos 20 ∷ []) (pos 2) ready
      (value_of (ready, 0) one_round) kernel [] (trace_of one_round) refl (omega arith) refl
