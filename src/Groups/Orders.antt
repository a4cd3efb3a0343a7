-- ===== src/Groups/Orders.antt =====
-- The signals that a run of the sender sends to its groups.
use Prim.Native.String.{String}
use computer_networks_assign.Prelude.{
  ℕ, ◌≡◌, Bool, List, [], ◌∷◌, ◌==◌, if◌then◌else◌, arith, Bool-cases, inl, inr,
}
use computer_networks_assign.Prelude.Int.{ℤ, minus_one, is_zero, eqz}
use computer_networks_assign.Os.{Call, killpg, poll, read, sigusr1, Trace, Os, done}
use computer_networks_assign.Os.Bind.{>>=-done}
use computer_networks_assign.Groups.{
  sigstop, sigcont, Sender, count_kills, pass_message, resume, handler, make_groups, strcpy_c1,
  poll_one, poll_round, revents_of,
}

-- A signal to a group.
pub record Order : Type 0 where
  pub group : ℤ
  pub signal : ℕ

abbrev order_of : Call → List Order → List Order
order_of (killpg g s) os = record { group = g; signal = s } ∷ os
order_of c os = os

-- The signals to groups of a trace, the newest first.
unfoldable pub orders : Trace → List Order
orders [] = []
orders (e ∷ tr) = order_of e.call (orders tr)

pub pass_message-orders :
    (name : String) (message : List ℕ) (os : Os) (tr tr' : Trace)
    → pass_message name message os tr ≡ done tt tr'
    → orders tr' ≡ orders tr
unfolding pass_message orders
pass_message-orders name message os tr tr' e = ground arith

pub resume-orders :
    (own : ℤ) (name1 name2 : String) (message : List ℕ) (os : Os) (tr tr' : Trace)
    → resume own name1 name2 message os tr ≡ done tt tr'
    → orders tr'
      ≡ record { group = own; signal = sigusr1 }
        ∷ record { group = own; signal = sigcont }
        ∷ orders tr
unfolding resume orders
resume-orders own name1 name2 message os tr tr' e = ground arith

-- The group that a signal stops, and the one that it continues.
abbrev pub stopped_by : ℕ → Sender → ℤ
stopped_by sig v = if sig == sigusr1 then v.b else v.s1

abbrev pub continued_by : ℕ → Sender → ℤ
continued_by sig v = if sig == sigusr1 then v.s1 else v.b

pub handler-orders :
    (sig : ℕ) (v v' : Sender) (os : Os) (tr tr' : Trace)
    → handler sig v os tr ≡ done v' tr'
    → (v' ≡ count_kills 3 v)
      × (orders tr'
          ≡ record { group = continued_by sig v; signal = sigusr1 }
            ∷ record { group = continued_by sig v; signal = sigcont }
            ∷ record { group = stopped_by sig v; signal = sigstop }
            ∷ orders tr)
unfolding handler orders
handler-orders sig v v' os tr tr' e = ground arith

strcpy_c1-orders :
    (buff : List ℕ) (v v' : Sender) (os : Os) (tr tr' : Trace)
    → strcpy_c1 buff v os tr ≡ done v' tr'
    → (orders tr' ≡ orders tr) × (v'.s1 ≡ v.s1) × (v'.b ≡ v.b) × (v'.kill_calls ≡ v.kill_calls)
unfolding strcpy_c1
strcpy_c1-orders buff v v' os tr tr' e = ground arith

poll_one-orders :
    (ready : Bool) (fd : ℤ) (v v' : Sender) (os : Os) (tr tr' : Trace)
    → poll_one ready fd v os tr ≡ done v' tr'
    → (orders tr' ≡ orders tr) × (v'.s1 ≡ v.s1) × (v'.b ≡ v.b) × (v'.kill_calls ≡ v.kill_calls)
unfolding poll_one orders
poll_one-orders ready fd v v' os tr tr' e =
    let r = os tr (read fd) in
    let mid : Trace = record { call = read fd; reply = r } ∷ tr in
    ground (arith, strcpy_c1-orders r.text v v' os mid tr')

pub poll_round-orders :
    (c1 c2 : ℤ) (v v' : Sender) (os : Os) (tr tr' : Trace)
    → poll_round c1 c2 v os tr ≡ done v' tr'
    → (orders tr' ≡ orders tr) × (v'.s1 ≡ v.s1) × (v'.b ≡ v.b) × (v'.kill_calls ≡ v.kill_calls)
unfolding poll_round orders
poll_round-orders c1 c2 v v' os tr tr' e =
    let p = os tr poll in
    let polled : Trace = record { call = poll; reply = p } ∷ tr in
    let r = revents_of p.text in
    elim (Bool-cases (eqz p.ret minus_one)) [
      | inl bad ↦ absurd (ground arith)
      | inr fine ↦ elim (Bool-cases (is_zero p.ret)) [
        | inl none_ready ↦ ground arith
        | inr some_ready ↦
            let (w, mid, first, second) =
              >>=-done (poll_one r.0 c1 v) (λ w. poll_one r.1 c2 w) os polled tr' v'
                (ground arith) in
            ground (
              arith,
              poll_one-orders r.0 c1 v w os polled mid first,
              poll_one-orders r.1 c2 w v' os mid tr' second,
            )
      ]
    ]

pub make_groups-orders :
    (s1 s2 a b : ℤ) (os : Os) (tr tr' : Trace)
    → make_groups s1 s2 a b os tr ≡ done tt tr'
    → orders tr'
      ≡ record { group = b; signal = sigstop } ∷ record { group = s1; signal = sigstop } ∷ orders tr
unfolding make_groups orders
make_groups-orders s1 s2 a b os tr tr' e = ground arith
