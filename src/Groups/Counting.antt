-- ===== src/Groups/Counting.antt =====
-- The shared count of kill calls.
use computer_networks_assign.Prelude.{◌+◌, ◌%◌, ◌^◌, ◌≡◌, refl, ap, length, arith}
use computer_networks_assign.Os.{Trace, Os}
use computer_networks_assign.Groups.{Sender}
use computer_networks_assign.Groups.Orders.{orders, handler-orders, poll_round-orders}
use computer_networks_assign.Groups.Turns.{Step, signalled, polled, Reach, here, next}

-- The number of signals to groups since `tr0`, in 32 bits, is what the count has grown by.
abbrev Counts : Sender → Trace → Sender → Trace → Type 0
Counts v0 tr0 v tr =
    (v.kill_calls + length (orders tr0)) % 2 ^ 32 ≡ (v0.kill_calls + length (orders tr)) % 2 ^ 32

Step-Counts :
    {os : Os} (v0 : Sender) (tr0 : Trace) {v v' : Sender} {tr tr' : Trace}
    → Step os v tr v' tr'
    → Counts v0 tr0 v tr
    → Counts v0 tr0 v' tr'
Step-Counts {os} v0 tr0 {v} {v'} {tr} {tr'} (signalled sig e) k =
    let (counted, made) = handler-orders sig v v' os tr tr' e in
    omega (arith, k, ap (λ (w : Sender). w.kill_calls) counted, ap length made)
Step-Counts {os} v0 tr0 {v} {v'} {tr} {tr'} (polled c1 c2 e) k =
    let (same, _, _, calls) = poll_round-orders c1 c2 v v' os tr tr' e in
    omega (arith, k, calls, ap length same)

-- In every state that the sender reaches, the shared count has grown, in 32 bits, by the number of the
-- signals that were sent to the groups, as long as nobody else writes it.
Reach-Counts :
    {os : Os} {v0 : Sender} {tr0 : Trace} {v : Sender} {tr : Trace}
    → Reach os v0 tr0 v tr
    → Counts v0 tr0 v tr
Reach-Counts here = refl
Reach-Counts {os} {v0} {tr0} (next r s) = Step-Counts v0 tr0 s (Reach-Counts r)
