-- ===== src/Groups/Turns.antt =====
-- The two groups take turns.
use computer_networks_assign.Prelude.{ℕ, ◌≡◌, refl, ap, sym, ◌∙◌, subst, true, false, [], arith}
use computer_networks_assign.Prelude.Int.{ℤ}
use computer_networks_assign.Os.{Trace, Os, done}
use computer_networks_assign.Groups.{Sender, handler, make_groups, poll_round}
use computer_networks_assign.Groups.Orders.{stopped_by, continued_by}
use computer_networks_assign.Groups.Members.{
  effects, in_group, runs, never_both, Obeys, IsApart, IsGrouped, grouping, turn, in_group-turn,
  IsGrouped-grouping, IsGrouped-turn, turn-runs, turn-stopped, never_both-grouping, never_both-turn,
}
use computer_networks_assign.Groups.Effects.{handler-effects, poll_round-Keeps, make_groups-effects}

-- The steps of the sender behind its start: a signal that it handles, or a round of `polling`. A
-- signal does not come in the middle of a handler.
pub data Step (os : Os) (v : Sender) (tr : Trace) (v' : Sender) (tr' : Trace) : Type 0 where
  signalled : (sig : ℕ) → handler sig v os tr ≡ done v' tr' → Step os v tr v' tr'
  polled : (c1 c2 : ℤ) → poll_round c1 c2 v os tr ≡ done v' tr' → Step os v tr v' tr'

pub data Reach (os : Os) (v : Sender) (tr : Trace) : Sender → Trace → Type 0 where
  here : Reach os v tr v tr
  next :
      {v1 : Sender} {tr1 : Trace} {v2 : Sender} {tr2 : Trace}
      → Reach os v tr v1 tr1
      → Step os v1 tr1 v2 tr2
      → Reach os v tr v2 tr2

-- What the steps keep.
record Kept (v0 v : Sender) (tr : Trace) : Type 0 where
  same_s1 : v.s1 ≡ v0.s1
  same_b : v.b ≡ v0.b
  grouped : IsGrouped v0 (effects tr)
  turns : never_both v0 (effects tr) ≡ true

handled :
    {os : Os} {v0 v v' : Sender} {tr tr' : Trace} (sig : ℕ)
    → Obeys v0 os
    → handler sig v os tr ≡ done v' tr'
    → Kept v0 v tr
    → (v'.s1 ≡ v0.s1) × ((v'.b ≡ v0.b) × (effects tr' ≡ turn sig v0 (effects tr)))
handled {os} {v0} {v} {v'} {tr} {tr'} sig o e k =
    let (counted, done_so) =
      handler-effects sig v0 v v' os tr tr' o (ground (arith, k.same_s1, k.grouped.s1_in))
        (ground (arith, k.same_b, k.grouped.b_in)) e in
    (
      ap (λ (w : Sender). w.s1) counted ∙ k.same_s1,
      (ap (λ (w : Sender). w.b) counted ∙ k.same_b, ground (arith, done_so, k.same_s1, k.same_b)),
    )

Step-Kept :
    {os : Os} {v0 v v' : Sender} {tr tr' : Trace}
    → Obeys v0 os
    → IsApart v0
    → Step os v tr v' tr'
    → Kept v0 v tr
    → Kept v0 v' tr'
Step-Kept {os} {v0} {v} {v'} {tr} {tr'} o d (signalled sig e) k =
    let (s1, (b, more)) = handled sig o e k in
    record {
      same_s1 = s1;
      same_b = b;
      grouped = subst (IsGrouped v0) (sym more) (IsGrouped-turn sig v0 v0 (effects tr) k.grouped);
      turns = ap (never_both v0) more ∙ never_both-turn sig v0 (effects tr) d k.grouped k.turns;
    }
Step-Kept {os} {v0} {v} {v'} {tr} {tr'} o d (polled c1 c2 e) k =
    let (same, s1, b) = poll_round-Keeps c1 c2 v v' os tr tr' e in
    record {
      same_s1 = s1 ∙ k.same_s1;
      same_b = b ∙ k.same_b;
      grouped = subst (IsGrouped v0) (sym same) k.grouped;
      turns = ap (never_both v0) same ∙ k.turns;
    }

Reach-Kept :
    {os : Os} {v0 : Sender} {tr0 : Trace} {v : Sender} {tr : Trace}
    → Obeys v0 os
    → IsApart v0
    → Kept v0 v0 tr0
    → Reach os v0 tr0 v tr
    → Kept v0 v tr
Reach-Kept o d h here = h
Reach-Kept o d h (next r s) = Step-Kept o d s (Reach-Kept o d h r)

start-Kept :
    (os : Os) (v0 : Sender) (tr tr0 : Trace)
    → Obeys v0 os
    → IsApart v0
    → effects tr ≡ []
    → make_groups v0.s1 v0.s2 v0.a v0.b os tr ≡ done tt tr0
    → Kept v0 v0 tr0
start-Kept os v0 tr tr0 o d quiet start =
    let begun = make_groups-effects v0 os tr tr0 o d start in
    record {
      same_s1 = refl;
      same_b = refl;
      grouped = subst (IsGrouped v0) (sym begun) (IsGrouped-grouping v0 (effects tr) d);
      turns = ap (never_both v0) (begun ∙ ap (grouping v0) quiet) ∙ never_both-grouping v0 d;
    }

-- With four different children, and an operating system that lets the sender move them into the groups
-- and signal the groups: after the start, whatever signals come, one handler after the other, and
-- whatever `polling` reads, each child is in its group, and since both groups were stopped no child of
-- the one has run while a child of the other did; and behind each handled signal all processes of the
-- group that it is meant for run, and none of the other.
pub groups_take_turns :
    (os : Os) (v0 : Sender) (tr tr0 : Trace) (v : Sender) (tr1 : Trace) (sig : ℕ) (v' : Sender)
    (tr2 : Trace)
    → Obeys v0 os
    → IsApart v0
    → effects tr ≡ []
    → make_groups v0.s1 v0.s2 v0.a v0.b os tr ≡ done tt tr0
    → Reach os v0 tr0 v tr1
    → handler sig v os tr1 ≡ done v' tr2
    → IsGrouped v0 (effects tr2)
      × ((never_both v0 (effects tr2) ≡ true)
          × (((p : ℤ)
                → in_group p (continued_by sig v0) (effects tr2) ≡ true
                → runs p (effects tr2) ≡ true)
              × ((p : ℤ)
                  → in_group p (stopped_by sig v0) (effects tr2) ≡ true
                  → runs p (effects tr2) ≡ false)))
groups_take_turns os v0 tr tr0 v tr1 sig v' tr2 o d quiet start reach e =
    let k = Reach-Kept o d (start-Kept os v0 tr tr0 o d quiet start) reach in
    let k' = Step-Kept o d (signalled sig e) k in
    let (_, (_, more)) = handled sig o e k in
    (
      k'.grouped,
      (
        k'.turns,
        (
          (λ p m.
              ap (runs p) more
              ∙ turn-runs sig v0 p (effects tr1) (same_group p (continued_by sig v0) more m)),
          (λ p m.
              ap (runs p) more
              ∙ turn-stopped sig v0 p (effects tr1) d (same_group p (stopped_by sig v0) more m)),
        ),
      ),
    )
  where
    same_group :
        (p g : ℤ)
        → effects tr2 ≡ turn sig v0 (effects tr1)
        → in_group p g (effects tr2) ≡ true
        → in_group p g (effects tr1) ≡ true
    same_group p g more m =
        sym (in_group-turn sig v0 p g (effects tr1)) ∙ sym (ap (in_group p g) more) ∙ m
