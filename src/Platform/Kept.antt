-- ===== src/Platform/Kept.antt =====
-- Whom the platform holds, and whom it passes on.
use computer_networks_assign.Prelude.{
  ℕ, zero, suc, ◌<◌, ◌≡◌, some, List, [], ◌∷◌, length, get_elem?, All, arith,
}
use computer_networks_assign.Prelude.Int.{ℤ}
use computer_networks_assign.Os.{Trace, Os, done}
use computer_networks_assign.Inetd.{FdSet}
use computer_networks_assign.At.Routed.{passings}
use computer_networks_assign.Platform.{Links, connect_links, Student, Server, started, round}
use computer_networks_assign.Platform.Passing.{received, IsForwarded}

below : (fds : List ℤ) (i : ℕ) (fd : ℤ) → get_elem? fds i ≡ some fd → i < length fds
below [] i fd e = cc
below (x ∷ fds) zero fd e = omega arith
below (x ∷ fds) (suc i) fd e = omega (arith, below fds i fd e)

-- Whom the platform holds are those who came, and whom it passed on are among them.
abbrev IsRight : Links → List ℤ → Trace → Type 0
IsRight s fds tr = (fds ≡ received s tr) × All (IsForwarded s fds) (passings tr)

-- What the platform reaches from its start, whatever `select` does in the rounds.
pub data Reach (parse : List ℕ → Student) (layout : Student → List ℕ) (os : Os) (s : Links)
    : Server → Trace → Type 0 where
  begun : (tr : Trace) → connect_links os [] ≡ done s tr → Reach parse layout os s started tr
  next :
      (select : ℤ → FdSet → FdSet) (v v' : Server) (tr tr' : Trace)
      → Reach parse layout os s v tr
      → round parse layout select s v os tr ≡ done v' tr'
      → Reach parse layout os s v' tr'
