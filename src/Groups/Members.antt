-- ===== src/Groups/Members.antt =====
-- What the successful calls of the sender do to its children: which group a child is in, and whether it
-- runs.
use computer_networks_assign.Prelude.{
  ℕ, ◌≡◌, ◌⊎◌, refl, Bool, true, false, not, ◌&&◌, ◌||◌, List, [], ◌∷◌, ◌==◌, if◌then◌else◌, arith,
  Bool-cases, inl, inr,
}
use computer_networks_assign.Prelude.Int.{ℤ, pos, negsuc, is_zero, eqz, eqz→eq, eqz_self}
use computer_networks_assign.Os.{Call, killpg, setpgid, sigusr1, Trace, Os}
use computer_networks_assign.Groups.{sigstop, sigcont, Sender}
use computer_networks_assign.Groups.Orders.{stopped_by, continued_by}

-- A signal that a group got, and a process that was moved into a group.
pub data Effect : Type 0 where
  signal_to : ℤ → ℕ → Effect
  moved : ℤ → ℤ → Effect

abbrev effect_of : Call → ℤ → List Effect → List Effect
effect_of (killpg g s) r es = if is_zero r then signal_to g s ∷ es else es
effect_of (setpgid p g) r es = if is_zero r then moved p g ∷ es else es
effect_of c r es = es

-- The effects of the calls that returned 0, the newest first.
unfoldable pub effects : Trace → List Effect
effects [] = []
effects (e ∷ tr) = effect_of e.call e.reply.ret (effects tr)

-- The process has been moved into the group, and into no other since.
unfoldable pub in_group : ℤ → ℤ → List Effect → Bool
in_group p g [] = false
in_group p g (signal_to h s ∷ es) = in_group p g es
in_group p g (moved q h ∷ es) = let rest = in_group p g es in if eqz q p then eqz h g else rest

-- The process runs: no group has got a SIGSTOP while the process was in it, unless a SIGCONT came behind.
unfoldable pub runs : ℤ → List Effect → Bool
runs p [] = true
runs p (moved q h ∷ es) = runs p es
runs p (signal_to g s ∷ es) =
    let rest = runs p es in
    if in_group p g es
    then if s == sigcont then true else if s == sigstop then false else rest
    else rest

-- The group has been stopped at least once.
unfoldable pub once_stopped : ℤ → List Effect → Bool
once_stopped g [] = false
once_stopped g (moved q h ∷ es) = once_stopped g es
once_stopped g (signal_to h s ∷ es) = (eqz h g && s == sigstop) || once_stopped g es

-- A child of the first group runs while one of the second does, although both had been stopped.
abbrev pub both_run : Sender → List Effect → Bool
both_run v es =
    (once_stopped v.s1 es && once_stopped v.b es)
    && ((runs v.s1 es || runs v.s2 es) && (runs v.a es || runs v.b es))

-- This has been so at no time.
unfoldable pub never_both : Sender → List Effect → Bool
never_both v [] = true
never_both v (e ∷ es) = let rest = never_both v es in not (both_run v (e ∷ es)) && rest

abbrev pub IsChild : Sender → ℤ → Type 0
IsChild v p = (p ≡ v.s1) ⊎ ((p ≡ v.s2) ⊎ ((p ≡ v.a) ⊎ (p ≡ v.b)))

-- A signal to a group in which a process is does not fail, nor does moving a child into a group of its
-- own or one in which another process is.
pub record Obeys (v : Sender) (os : Os) : Type 0 where
  pub delivers :
      (tr : Trace) (p g : ℤ) (s : ℕ)
      → in_group p g (effects tr) ≡ true
      → is_zero (os tr (killpg g s)).ret ≡ true
  pub founds : (tr : Trace) (p : ℤ) → IsChild v p → is_zero (os tr (setpgid p p)).ret ≡ true
  pub joins :
      (tr : Trace) (p q g : ℤ)
      → IsChild v p
      → in_group q g (effects tr) ≡ true
      → is_zero (os tr (setpgid p g)).ret ≡ true

-- The children of the two groups are different processes.
pub record IsApart (v : Sender) : Type 0 where
  pub s1_a : eqz v.s1 v.a ≡ false
  pub s1_b : eqz v.s1 v.b ≡ false
  pub s2_a : eqz v.s2 v.a ≡ false
  pub s2_b : eqz v.s2 v.b ≡ false

-- Each child is in the group of its leader, `s1` or `b`.
pub record IsGrouped (v : Sender) (es : List Effect) : Type 0 where
  pub s1_in : in_group v.s1 v.s1 es ≡ true
  pub s2_in : in_group v.s2 v.s1 es ≡ true
  pub a_in : in_group v.a v.b es ≡ true
  pub b_in : in_group v.b v.b es ≡ true

-- What the start does.
abbrev pub grouping : Sender → List Effect → List Effect
grouping v es =
    signal_to v.b sigstop
    ∷ signal_to v.s1 sigstop
    ∷ moved v.s2 v.s1
    ∷ moved v.s1 v.s1
    ∷ moved v.a v.b
    ∷ moved v.b v.b
    ∷ es

-- What a handler does.
abbrev pub turn : ℕ → Sender → List Effect → List Effect
turn sig v es =
    signal_to (continued_by sig v) sigusr1
    ∷ signal_to (continued_by sig v) sigcont
    ∷ signal_to (stopped_by sig v) sigstop
    ∷ es

eqz_sym : (a b : ℤ) → eqz a b ≡ eqz b a
eqz_sym (pos a) (pos b) = ground arith
eqz_sym (negsuc a) (negsuc b) = ground arith
eqz_sym (pos a) (negsuc b) = refl
eqz_sym (negsuc a) (pos b) = refl

pub IsGrouped-grouping : (v : Sender) (es : List Effect) → IsApart v → IsGrouped v (grouping v es)
unfolding in_group
IsGrouped-grouping v es d = record {
  s1_in = ground (arith, eqz_self v.s1);
  s2_in = ground (arith, eqz_self v.s1, eqz_self v.s2);
  a_in = ground (arith, d.s1_a, d.s2_a, eqz_self v.a, eqz_self v.b);
  b_in = ground (arith, d.s1_b, d.s2_b, eqz_self v.b, eqz_self v.a);
}

pub IsGrouped-turn :
    (sig : ℕ) (v w : Sender) (es : List Effect) → IsGrouped v es → IsGrouped v (turn sig w es)
unfolding in_group
IsGrouped-turn sig v w es g = record {
  s1_in = g.s1_in;
  s2_in = g.s2_in;
  a_in = g.a_in;
  b_in = g.b_in;
}

-- A signal moves no process.
pub in_group-turn :
    (sig : ℕ) (v : Sender) (p g : ℤ) (es : List Effect)
    → in_group p g (turn sig v es) ≡ in_group p g es
unfolding in_group
in_group-turn sig v p g es = refl

-- A process is in one group.
in_group_apart :
    (p g h : ℤ) (es : List Effect)
    → eqz g h ≡ false
    → in_group p g es ≡ true
    → in_group p h es ≡ false
unfolding in_group
in_group_apart p g h [] d m = absurd (ground arith)
in_group_apart p g h (signal_to k s ∷ es) d m = in_group_apart p g h es d m
in_group_apart p g h (moved q k ∷ es) d m = elim (Bool-cases (eqz q p)) [
  | inl last ↦ let same : k ≡ g = eqz→eq k g (ground arith) in ground (arith, same)
  | inr other ↦ ground (arith, in_group_apart p g h es d (ground arith))
]

pub apart_groups :
    (sig : ℕ) (v : Sender) → IsApart v → eqz (stopped_by sig v) (continued_by sig v) ≡ false
apart_groups sig v d = ground (arith, d.s1_b, eqz_sym v.s1 v.b)

-- Behind a handler the processes of the one group run, and those of the other do not.
pub turn-runs :
    (sig : ℕ) (v : Sender) (p : ℤ) (es : List Effect)
    → in_group p (continued_by sig v) es ≡ true
    → runs p (turn sig v es) ≡ true
unfolding runs in_group
turn-runs sig v p es m = ground arith

stopped :
    (p g h : ℤ) (es : List Effect)
    → eqz g h ≡ false
    → in_group p g es ≡ true
    → (runs p (signal_to g sigstop ∷ es) ≡ false)
      × ((runs p (signal_to h sigcont ∷ signal_to g sigstop ∷ es) ≡ false)
          × (runs p (signal_to h sigusr1 ∷ signal_to h sigcont ∷ signal_to g sigstop ∷ es) ≡ false))
unfolding runs in_group
stopped p g h es d m =
    let out = in_group_apart p g h es d m in
    (ground arith, (ground (arith, out), ground (arith, out)))

pub turn-stopped :
    (sig : ℕ) (v : Sender) (p : ℤ) (es : List Effect)
    → IsApart v
    → in_group p (stopped_by sig v) es ≡ true
    → runs p (turn sig v es) ≡ false
turn-stopped sig v p es d m =
    let (_, (_, off)) =
      stopped p (stopped_by sig v) (continued_by sig v) es (apart_groups sig v d) m in
    off

pub never_both-grouping : (v : Sender) → IsApart v → never_both v (grouping v []) ≡ true
unfolding never_both once_stopped runs in_group
never_both-grouping v d = ground (arith, d.s1_a, d.s1_b, d.s2_a, d.s2_b, eqz_self v.a, eqz_self v.b)

pub never_both-turn :
    (sig : ℕ) (v : Sender) (es : List Effect)
    → IsApart v
    → IsGrouped v es
    → never_both v es ≡ true
    → never_both v (turn sig v es) ≡ true
unfolding never_both
never_both-turn sig v es d g h = elim (Bool-cases (sig == sigusr1)) [
  | inl usr1 ↦
      let (a1, (a2, a3)) =
        stopped v.a v.b v.s1 es (ground (arith, d.s1_b, eqz_sym v.s1 v.b)) g.a_in in
      let (b1, (b2, b3)) =
        stopped v.b v.b v.s1 es (ground (arith, d.s1_b, eqz_sym v.s1 v.b)) g.b_in in
      ground (arith, a1, a2, a3, b1, b2, b3)
  | inr usr2 ↦
      let (a1, (a2, a3)) = stopped v.s1 v.s1 v.b es d.s1_b g.s1_in in
      let (b1, (b2, b3)) = stopped v.s2 v.s1 v.b es d.s1_b g.s2_in in
      ground (arith, a1, a2, a3, b1, b2, b3)
]
