-- ===== src/Groups/Cases.antt =====
-- A run of the sender with a kernel that answers every call, and its theorems there.
use computer_networks_assign.Prelude.{◌≡◌, refl, true, false, [], ◌∷◌}
use computer_networks_assign.Prelude.Int.{ℤ, pos}
use computer_networks_assign.Os.{
  trace_of, killpg, setpgid, sigusr1, sigusr2, Trace, Os, Outcome, done, exited, crashed,
}
use computer_networks_assign.Groups.{
  Sender, pass_message, resume, handler, make_groups, poll_one, strcpy_c1, poll_round,
}
use computer_networks_assign.Groups.Orders.{stopped_by, continued_by}
use computer_networks_assign.Groups.Members.{
  effects, in_group, runs, never_both, Obeys, IsApart, IsGrouped,
}
use computer_networks_assign.Groups.Turns.{signalled, polled, Reach, here, next, groups_take_turns}

abbrev sender : Sender
sender = record { s1 = pos 11; s2 = pos 12; a = pos 13; b = pos 14; kill_calls = 0; buff_c1 = [] }

-- Signals and moves succeed. The first descriptor is ready, with the text "m".
abbrev kernel : Os
kernel tr (killpg g sig) = record { ret = pos 0; passed = pos 0; text = [] }
kernel tr (setpgid p g) = record { ret = pos 0; passed = pos 0; text = [] }
kernel tr c = record { ret = pos 2; passed = pos 0; text = 1 ∷ 0 ∷ [] }

kernel-Obeys : Obeys sender kernel
kernel-Obeys = record {
  delivers = λ tr p g sig m. refl;
  founds = λ tr p c. refl;
  joins = λ tr p q g c m. refl;
}

sender-IsApart : IsApart sender
sender-IsApart = record { s1_a = refl; s1_b = refl; s2_a = refl; s2_b = refl }

abbrev value_of : Outcome Sender → Sender
value_of (done v tr) = v
value_of (exited n tr) = sender
value_of (crashed tr) = sender

abbrev begun : Trace
begun = trace_of (make_groups (pos 11) (pos 12) (pos 13) (pos 14) kernel [])

abbrev first : Outcome Sender
first = handler sigusr1 sender kernel begun

abbrev second : Outcome Sender
second = poll_round (pos 5) (pos 6) (value_of first) kernel (trace_of first)

abbrev third : Outcome Sender
third = handler sigusr2 (value_of second) kernel (trace_of second)

reached : Reach kernel sender begun (value_of second) (trace_of second)
unfolding make_groups handler resume pass_message poll_round poll_one strcpy_c1 effects
reached = next (next here (signalled sigusr1 refl)) (polled (pos 5) (pos 6) refl)

groups_take_turns_example :
    IsGrouped sender (effects (trace_of third))
    × ((never_both sender (effects (trace_of third)) ≡ true)
        × (((p : ℤ)
              → in_group p (continued_by sigusr2 sender) (effects (trace_of third)) ≡ true
              → runs p (effects (trace_of third)) ≡ true)
            × ((p : ℤ)
                → in_group p (stopped_by sigusr2 sender) (effects (trace_of third)) ≡ true
                → runs p (effects (trace_of third)) ≡ false)))
unfolding make_groups handler resume pass_message poll_round poll_one strcpy_c1 effects
groups_take_turns_example =
    groups_take_turns kernel sender [] begun (value_of second) (trace_of second) sigusr2
      (value_of third) (trace_of third) kernel-Obeys sender-IsApart refl refl reached refl
