-- ===== src/At/Routed.antt =====
-- Which platform gets a student.
use computer_networks_assign.Prelude.{
  ℕ, zero, suc, ◌+◌, ◌%◌, ◌⊎◌, ◌≡◌, List, [], ◌∷◌, length, get_elem?, ◌<◌, some, if◌then◌else◌,
  arith,
}
use computer_networks_assign.Prelude.Int.{ℤ}
use computer_networks_assign.Os.{Call, sendmsg, Trace, Os, done}
use computer_networks_assign.Inetd.{FdSet}
use computer_networks_assign.At.{Links, connect_platforms, Server, started, Student, round}

-- A descriptor that was sent over a connection.
pub record Passed : Type 0 where
  pub channel : ℤ
  pub student : ℤ

-- What was passed on, the newest first.
abbrev passing : Call → List Passed → List Passed
passing (sendmsg channel fd) ps = record { channel = channel; student = fd } ∷ ps
passing c ps = ps

unfoldable pub passings : Trace → List Passed
passings [] = []
passings (e ∷ tr) = passing e.call (passings tr)

-- The channel is the connection to the first, second or third platform, by the remainder of the index.
abbrev pub IsFor : Links → ℕ → ℤ → Type 0
IsFor s i channel =
    ((i % 3 ≡ 0) × (channel ≡ s.nufd_r1))
    ⊎ (((i % 3 ≡ 1) × (channel ≡ s.nufd_r2)) ⊎ ((i % 3 ≡ 2) × (channel ≡ s.nufd_r3)))

-- The descriptor is that of the student with some index, and went to the platform of this index.
abbrev pub IsRouted : Links → List ℤ → Passed → Type 0
IsRouted s fds p = (i : ℕ) × (get_elem? fds i ≡ some p.student) × IsFor s i p.channel

below : (fds : List ℤ) (i : ℕ) (fd : ℤ) → get_elem? fds i ≡ some fd → i < length fds
below [] i fd e = cc
below (x ∷ fds) zero fd e = omega arith
below (x ∷ fds) (suc i) fd e = omega (arith, below fds i fd e)

-- What the server reaches from its start, whatever `select` does in the rounds.
pub data Reach (layout : Student → List ℕ) (os : Os) (s : Links) : Server → Trace → Type 0 where
  begun : (tr : Trace) → connect_platforms os [] ≡ done s tr → Reach layout os s started tr
  next :
      (select : ℤ → FdSet → FdSet) (v v' : Server) (tr tr' : Trace)
      → Reach layout os s v tr
      → round layout select s v os tr ≡ done v' tr'
      → Reach layout os s v' tr'

-- The number of the descriptors that are in the set.
unfoldable pub readable : FdSet → List ℤ → ℕ
readable ready [] = 0
readable ready (fd ∷ fds) = (if ready fd then 1 else 0) + readable ready fds
