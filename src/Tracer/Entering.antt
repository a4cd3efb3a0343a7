-- ===== src/Tracer/Entering.antt =====
-- The table of ports: how the services enter theirs, and what the tracer sends of it.
use computer_networks_assign.Prelude.{
  ℕ, zero, suc, ◌+◌, ◌≤◌, ◌<◌, ◌≡◌, refl, ap, sym, ◌∙◌, Option, some, none, List, [], ◌∷◌, ◌++◌,
  map, length, set, ltb, length-set, take, drop, get_elem?, get_elem?_below, if◌then◌else◌,
  Option-cases, Bool-cases, inl, inr, arith, append-nil, append_assoc,
}
use computer_networks_assign.Prelude.Int.{ℤ, eqz, eqz_self}
use computer_networks_assign.Os.{Call, sendto, recvfrom, Trace, Os, done}
use computer_networks_assign.Tracer.{
  int_bytes, Shmstr, store_port, raise_ind, enter_port, send_ports, end_mark, func2_round,
}

-- The services enter their ports, one after the other.
unfoldable pub enter_ports : List ℕ → Shmstr → Option Shmstr
enter_ports [] s = some s
enter_ports (p ∷ ps) s = elim (enter_port p s) [ none ↦ none | some s' ↦ enter_ports ps s' ]

-- The ports in the table.
abbrev pub entries : Shmstr → List ℕ
entries s = take s.ind s.ports

-- The datagrams sent over `fd`, the oldest first.
abbrev sending : ℤ → Call → List (List ℕ) → List (List ℕ)
sending fd (sendto g bytes) ds = if eqz g fd then ds ++ bytes ∷ [] else ds
sending fd c ds = ds

unfoldable pub datagrams : ℤ → Trace → List (List ℕ)
datagrams fd [] = []
datagrams fd (e ∷ tr) = sending fd e.call (datagrams fd tr)

take-drop_step :
    (xs : List ℕ) (i n x : ℕ)
    → get_elem? xs i ≡ some x
    → take (suc n) (drop i xs) ≡ x ∷ take n (drop (i + 1) xs)
take-drop_step [] i n x e = cc
take-drop_step (y ∷ ys) zero n x e = ground arith
take-drop_step (y ∷ ys) (suc i) n x e = ground (arith, take-drop_step ys i n x e)

take-set : (xs : List ℕ) (i v : ℕ) → i < length xs → take (i + 1) (set xs i v) ≡ take i xs ++ v ∷ []
take-set [] i v h = elim h [ ]
take-set (x ∷ xs) zero v h = refl
take-set (x ∷ xs) (suc i) v h = ground (arith, take-set xs i v (omega arith))

datagrams_one :
    (fd : ℤ) (bytes : List ℕ) (os : Os) (tr : Trace)
    → datagrams fd (record { call = sendto fd bytes; reply = os tr (sendto fd bytes) } ∷ tr)
      ≡ datagrams fd tr ++ bytes ∷ []
unfolding datagrams
datagrams_one fd bytes os tr = ground (arith, eqz_self fd)

send_ports_lem :
    (fd : ℤ) (ports : List ℕ) (i n : ℕ) (os : Os) (tr : Trace)
    → i + n ≤ length ports
    → (tr' : Trace) × (send_ports fd ports i n os tr ≡ done tt tr')
      × (datagrams fd tr' ≡ datagrams fd tr ++ map int_bytes (take n (drop i ports)))
unfolding send_ports
send_ports_lem fd ports i zero os tr h = (tr, refl, sym (append-nil (datagrams fd tr)))
send_ports_lem fd ports i (suc n) os tr h =
    let (port, e) = get_elem?_below ports i (omega arith) in
    let c = sendto fd (int_bytes port) in
    let mid : Trace = record { call = c; reply = os tr c } ∷ tr in
    let (tr', run, out) = send_ports_lem fd ports (i + 1) n os mid (omega arith) in
    let rest = map int_bytes (take n (drop (i + 1) ports)) in
    (
      tr',
      ground (arith, e, run),
      out
          ∙ ap (λ ds. ds ++ rest) (datagrams_one fd (int_bytes port) os tr)
          ∙ append_assoc (datagrams fd tr) (int_bytes port ∷ []) rest
          ∙ ap (λ ps. datagrams fd tr ++ map int_bytes ps) (sym (take-drop_step ports i n port e)),
    )

map-append : (xs ys : List ℕ) → map int_bytes (xs ++ ys) ≡ map int_bytes xs ++ map int_bytes ys
map-append [] ys = refl
map-append (x ∷ xs) ys = ap (λ l. int_bytes x ∷ l) (map-append xs ys)

-- One round of the tracer answers with the ports of the table and the mark of the end.
pub func2_round-entries :
    (fd : ℤ) (s : Shmstr) (os : Os) (tr : Trace)
    → s.ind ≤ length s.ports
    → (tr' : Trace) × (func2_round fd s os tr ≡ done tt tr')
      × (datagrams fd tr' ≡ datagrams fd tr ++ map int_bytes (entries s ++ end_mark ∷ []))
unfolding func2_round datagrams
func2_round-entries fd s os tr h =
    let asked : Trace = record { call = recvfrom fd; reply = os tr (recvfrom fd) } ∷ tr in
    let (mid, run, out) = send_ports_lem fd s.ports 0 s.ind os asked (omega arith) in
    let last = sendto fd (int_bytes end_mark) in
    (
      record { call = last; reply = os mid last } ∷ mid,
      ground (arith, run),
      datagrams_one fd (int_bytes end_mark) os mid
          ∙ ap (λ ds. ds ++ int_bytes end_mark ∷ []) out
          ∙ append_assoc (datagrams fd tr) (map int_bytes (entries s)) (int_bytes end_mark ∷ [])
          ∙ ap (λ ds. datagrams fd tr ++ ds) (sym (map-append (entries s) (end_mark ∷ []))),
    )

enter_port-entries :
    (p : ℕ) (s s' : Shmstr)
    → enter_port p s ≡ some s'
    → (entries s' ≡ entries s ++ p ∷ []) × (s'.ind ≤ length s'.ports)
unfolding enter_port store_port
enter_port-entries p s s' e = elim (Bool-cases (ltb s.ind (length s.ports))) [
  | inr full ↦ absurd (ground arith)
  | inl room ↦
      let same : record s { ports = set s.ports s.ind p; ind = s.ind + 1 } ≡ s' = ground arith in
      let h = take-set s.ports s.ind p (ground arith) in
      (ap entries (sym same) ∙ h, ground (arith, length-set s.ports s.ind p))
]

pub enter_ports-entries :
    (ps : List ℕ) (s s' : Shmstr)
    → s.ind ≤ length s.ports
    → enter_ports ps s ≡ some s'
    → (entries s' ≡ entries s ++ ps) × (s'.ind ≤ length s'.ports)
unfolding enter_ports
enter_ports-entries [] s s' h e = ground (arith, append-nil (entries s))
enter_ports-entries (p ∷ ps) s s' h e = elim (Option-cases (enter_port p s)) [
  | inl full ↦ absurd (ground arith)
  | inr (mid, one) ↦
      let (more, fits) = enter_port-entries p s mid one in
      let (all, fits') = enter_ports-entries ps mid s' fits (ground arith) in
      (all ∙ ap (λ es. es ++ ps) more ∙ append_assoc (entries s) (p ∷ []) ps, fits')
]

take-set_next :
    (xs : List ℕ) (i p q x : ℕ)
    → get_elem? xs (i + 1) ≡ some x
    → take (i + 1 + 1) (set (set xs i p) i q) ≡ take i xs ++ q ∷ x ∷ []
take-set_next [] i p q x e = cc
take-set_next (y ∷ []) zero p q x e = absurd (ground (arith, e))
take-set_next (y ∷ z ∷ ys) zero p q x e = ground (arith, e)
take-set_next (y ∷ ys) (suc i) p q x e =
    ground (arith, take-set_next ys i p q x (ground (arith, e)))

-- Two services that enter their ports at the same time, each having stored its port before the other
-- has raised the index: the first port is lost, and the second of the two new entries is what stood in
-- the segment before.
pub store_port_race :
    (p q x : ℕ) (s s1 s2 : Shmstr)
    → store_port p s ≡ some s1
    → store_port q s1 ≡ some s2
    → get_elem? s.ports (s.ind + 1) ≡ some x
    → entries (raise_ind (raise_ind s2)) ≡ entries s ++ q ∷ x ∷ []
unfolding store_port
store_port_race p q x s s1 s2 first second next =
    let once : record s { ports = set s.ports s.ind p } ≡ s1 = ground arith in
    let twice : record s { ports = set (set s.ports s.ind p) s.ind q } ≡ s2 = ground arith in
    ap (λ t. entries (raise_ind (raise_ind t))) (sym twice) ∙ take-set_next s.ports s.ind p q x next
