-- ===== src/Groups.antt =====
-- The sender S of Everything till now:Assignment_7: S.c, with its four children in two process groups,
-- of which a signal stops one and continues the other, and the director D.c, which sends the signals.
use Prim.Native.String.{String}
use computer_networks_assign.Prelude.{
  ℕ, ◌+◌, ◌%◌, ◌^◌, Bool, true, false, Option, none, some, List, [], ◌∷◌, ◌++◌, length, drop, ltb,
  ◌==◌, if◌then◌else◌,
}
use computer_networks_assign.Prelude.Int.{ℤ, pos, minus_one, is_zero, eqz, ltz}
use computer_networks_assign.Os.{
  fork, kill, killpg, setpgid, open_file, read, write, poll, print, sigusr1, sigusr2, M, pure,
  ◌>>=◌, ◌>>◌, ask, sys, call, exit, crash,
}
pub mod Orders
pub mod Members
pub mod Effects
pub mod Turns
pub mod Counting
mod Cases

abbrev pub sigstop : ℕ
sigstop = 19

abbrev pub sigcont : ℕ
sigcont = 18

-- The global variables: `children`, the shared count of kill calls, and the 1024 bytes of `buff_c1`.
pub record Sender : Type 0 where
  pub s1 : ℤ
  pub s2 : ℤ
  pub a : ℤ
  pub b : ℤ
  pub kill_calls : ℕ
  pub buff_c1 : List ℕ

-- `*kill_call_shmptr=kills+n`
abbrev pub count_kills : ℕ → Sender → Sender
count_kills n v = record v { kill_calls = (v.kill_calls + n) % 2 ^ 32 }

-- `int fd=open(name,O_WRONLY); write(fd,buff_c1,sizeof(buff_c1));`
unfoldable pub pass_message : String → List ℕ → M (Unit {0})
pass_message name message = do fd ← sys (open_file name); call (write fd message)

-- What the two branches of `handler` do: the group `other` stops, the group `own` goes on and is
-- signalled, and its two pipes get the message. The first call stands by itself.
unfoldable pub resume : ℤ → String → String → List ℕ → M (Unit {0})
unfolding pass_message
resume own name1 name2 message = do
  call (killpg own sigcont)
  call (killpg own sigusr1)
  pass_message name1 message
  pass_message name2 message

unfoldable pub handler : ℕ → Sender → M Sender
unfolding resume
handler sig v =
    if sig == sigusr1
    then (call (killpg v.b sigstop) >> resume v.s1 "sc1" "sc2" v.buff_c1 >> pure (count_kills 3 v))
    else (call (killpg v.s1 sigstop) >> resume v.b "a" "b" v.buff_c1 >> pure (count_kills 3 v))

-- Where `main` ends up: as one of the children, each with its own handler, or as the parent of four.
pub data Role : Type 0 where
  child_s1 child_s2 child_a child_b : Role
  parent_of : ℤ → ℤ → ℤ → ℤ → Role

-- The four calls of `fork`; a failed one is not looked at.
unfoldable pub start_children : M Role
start_children = do
  p1 ← sys fork
  if is_zero p1 then pure child_s1 else do
    p2 ← sys fork
    if is_zero p2 then pure child_s2 else do
      p3 ← sys fork
      if is_zero p3
          then pure child_a
          else do p4 ← sys fork; pure (if is_zero p4 then child_b else parent_of p1 p2 p3 p4)

-- The groups are made, and both are stopped.
unfoldable pub make_groups : ℤ → ℤ → ℤ → ℤ → M (Unit {0})
make_groups s1 s2 a b = do
  call (setpgid b b)
  call (setpgid a b)
  call (setpgid s1 s1)
  call (setpgid s2 s1)
  call (killpg s1 sigstop)
  call (killpg b sigstop)

-- A C string in a buffer; none if there is no terminator in it.
unfoldable pub c_string : List ℕ → Option (List ℕ)
c_string [] = none
c_string (c ∷ cs) =
    let rest = c_string cs in
    if c == 0 then some [] else elim rest [ none ↦ none | some s ↦ some (c ∷ s) ]

-- `strcpy(buff_c1,buff)`: what was read must hold the terminator.
unfoldable pub strcpy_c1 : List ℕ → Sender → M Sender
unfolding c_string
strcpy_c1 buff v = elim (c_string buff) [
  | none ↦ crash
  | some s ↦ pure (record v { buff_c1 = s ++ 0 ∷ drop (length s + 1) v.buff_c1 })
]

-- One descriptor of `polling`, if it has POLLIN.
unfoldable pub poll_one : Bool → ℤ → Sender → M Sender
unfolding strcpy_c1
poll_one ready fd v =
    if ready
    then (ask (read fd) >>= λ r. if ltz (pos 0) r.ret then strcpy_c1 r.text v else pure v)
    else pure v

-- Whether the entry has the bit POLLIN, the lowest.
abbrev pub pollin : ℕ → Bool
pollin revents = revents % 2 == 1

abbrev pub revents_of : List ℕ → Bool × Bool
revents_of (r1 ∷ r2 ∷ rs) = (pollin r1, pollin r2)
revents_of _ = (false, false)

-- One round of the loop of `polling`.
unfoldable pub poll_round : ℤ → ℤ → Sender → M Sender
poll_round c1 c2 v = do
  p ← ask poll
  if eqz p.ret minus_one
      then (call (print "Error in polling") >> exit 1)
      else if is_zero p.ret
      then pure v
      else (poll_one (revents_of p.text).0 c1 v >>= λ v'. poll_one (revents_of p.text).1 c2 v')

-- One round of the loop of D.c, for the number that was typed: what the shared count is then.
unfoldable pub direct : ℤ → ℕ → ℕ → M ℕ
direct pid x kills =
    if x == 1
    then (call (kill pid sigusr1) >> pure ((kills + 1) % 2 ^ 32))
    else if x == 2
    then (call (kill pid sigusr2) >> pure ((kills + 1) % 2 ^ 32))
    else pure kills
