-- ===== src/Tracer/Listing.antt =====
-- What a client is told of the ports that the services entered in the shared table.
use computer_networks_assign.Prelude.{
  ℕ, zero, suc, ◌+◌, ◌<◌, ◌≡◌, refl, ap, sym, ◌∙◌, Bool, true, false, some, List, [], ◌∷◌, ◌++◌,
  map, length, take, drop, get_elem?, if◌then◌else◌, ◌^◌, ◌-◌, All, arith,
}
use computer_networks_assign.Prelude.Int.{ℤ, pos, eqz, eqz_self}
use computer_networks_assign.Os.{trace_of, Call, Reply, recvfrom, Trace, Os, done}
use computer_networks_assign.Tracer.Entering.{
  enter_ports, datagrams, func2_round-entries, enter_ports-entries,
}
use computer_networks_assign.Tracer.{
  int_bytes, Shmstr, end_mark, func2_round, overwritten, is_end_mark, list_ports,
}

-- How many datagrams were taken from `fd`.
abbrev taking : ℤ → Call → ℕ → ℕ
taking fd (recvfrom g) n = if eqz g fd then n + 1 else n
taking fd c n = n

unfoldable pub taken : ℤ → Trace → ℕ
taken fd [] = 0
taken fd (e ∷ tr) = taking fd e.call (taken fd tr)

-- The network delivers these datagrams to `fd`, whole and in this order.
abbrev pub Delivers : Os → ℤ → List (List ℕ) → Type 0
Delivers os fd ds =
    (tr : Trace) (d : List ℕ)
    → get_elem? ds (taken fd tr) ≡ some d
    → ((os tr (recvfrom fd)).ret ≡ pos (length d)) × ((os tr (recvfrom fd)).text ≡ d)

drop_head :
    (ds : List (List ℕ)) (i : ℕ) (e : List ℕ) (es : List (List ℕ))
    → drop i ds ≡ e ∷ es
    → (get_elem? ds i ≡ some e) × (drop (i + 1) ds ≡ es)
drop_head [] zero e es h = cc
drop_head [] (suc i) e es h = cc
drop_head (d ∷ ds) zero e es h = ground (arith, h)
drop_head (d ∷ ds) (suc i) e es h = let (a, b) = drop_head ds i e es h in ground (arith, a, b)

taken_one :
    (fd : ℤ) (r : Reply) (tr : Trace)
    → taken fd (record { call = recvfrom fd; reply = r } ∷ tr) ≡ taken fd tr + 1
unfolding taken
taken_one fd r tr = ground (arith, eqz_self fd)

not_end_mark : (p : ℕ) → p < 2 ^ 32 - 1 → is_end_mark (int_bytes p) ≡ false
unfolding int_bytes
not_end_mark p h = ground arith

whole_int : (p : ℕ) (rpl : List ℕ) → drop 4 rpl ≡ [] → overwritten (int_bytes p) rpl ≡ int_bytes p
unfolding int_bytes
whole_int p rpl h = ground (arith, h)

end_mark_lem : is_end_mark (int_bytes end_mark) ≡ true
unfolding int_bytes
end_mark_lem = refl

four_bytes : (p : ℕ) → drop 4 (int_bytes p) ≡ []
unfolding int_bytes
four_bytes p = refl

drop_all : (rpl : List ℕ) → length rpl ≡ 4 → drop 4 rpl ≡ []
drop_all (a ∷ b ∷ c ∷ d ∷ []) h = refl
drop_all (a ∷ b ∷ c ∷ d ∷ e ∷ l) h = absurd (omega arith)
drop_all (a ∷ b ∷ c ∷ []) h = absurd (omega arith)
drop_all (a ∷ b ∷ []) h = absurd (omega arith)
drop_all (a ∷ []) h = absurd (omega arith)
drop_all [] h = absurd (omega arith)

-- A datagram of the mark of the end, and one of a port.
list_ports_end :
    (fuel n : ℕ) (fd : ℤ) (rpl d : List ℕ) (os : Os) (tr : Trace)
    → (os tr (recvfrom fd)).ret ≡ pos n
    → overwritten (os tr (recvfrom fd)).text rpl ≡ d
    → is_end_mark d ≡ true
    → list_ports (suc fuel) fd rpl os tr
      ≡ done ([], true) (record { call = recvfrom fd; reply = os tr (recvfrom fd) } ∷ tr)
unfolding list_ports
list_ports_end fuel n fd rpl d os tr ok same last = ground (arith, ok, same, last)

list_ports_more :
    (fuel n : ℕ) (fd : ℤ) (rpl d : List ℕ) (ps : List (List ℕ)) (b : Bool) (os : Os)
    (tr tr' : Trace)
    → (os tr (recvfrom fd)).ret ≡ pos n
    → overwritten (os tr (recvfrom fd)).text rpl ≡ d
    → is_end_mark d ≡ false
    → list_ports fuel fd d os (record { call = recvfrom fd; reply = os tr (recvfrom fd) } ∷ tr)
      ≡ done (ps, b) tr'
    → list_ports (suc fuel) fd rpl os tr ≡ done (d ∷ ps, b) tr'
unfolding list_ports
list_ports_more fuel n fd rpl d ps b os tr tr' ok same more rest =
    ground (arith, ok, same, more, rest)

list_ports_lem :
    (ps : List ℕ) (ds : List (List ℕ)) (fd : ℤ) (rpl : List ℕ) (os : Os) (tr : Trace)
    → drop 4 rpl ≡ []
    → All (λ p. p < 2 ^ 32 - 1) ps
    → Delivers os fd ds
    → drop (taken fd tr) ds ≡ map int_bytes (ps ++ end_mark ∷ [])
    → (tr' : Trace) × (list_ports (suc (length ps)) fd rpl os tr
        ≡ done (map int_bytes ps, true) tr')
list_ports_lem [] ds fd rpl os tr four small net left =
    let (first, _) = drop_head ds (taken fd tr) (int_bytes end_mark) [] left in
    let (ok, text) = net tr (int_bytes end_mark) first in
    (
      record { call = recvfrom fd; reply = os tr (recvfrom fd) } ∷ tr,
      list_ports_end 0 (length (int_bytes end_mark)) fd rpl (int_bytes end_mark) os tr ok
          (ap (λ t. overwritten t rpl) text ∙ whole_int end_mark rpl four) end_mark_lem,
    )
list_ports_lem (p ∷ ps) ds fd rpl os tr four (lt, small) net left =
    let (first, rest) =
      drop_head ds (taken fd tr) (int_bytes p) (map int_bytes (ps ++ end_mark ∷ [])) left in
    let (ok, text) = net tr (int_bytes p) first in
    let r = os tr (recvfrom fd) in
    let mid : Trace = record { call = recvfrom fd; reply = r } ∷ tr in
    let (tr', run) =
      list_ports_lem ps ds fd (int_bytes p) os mid (four_bytes p) small net
        (ap (λ k. drop k ds) (taken_one fd r tr) ∙ rest) in
    (
      tr',
      list_ports_more (suc (length ps)) (length (int_bytes p)) fd rpl (int_bytes p)
          (map int_bytes ps) true os tr tr' ok
          (ap (λ t. overwritten t rpl) text ∙ whole_int p rpl four) (not_end_mark p lt) run,
    )

-- When services have entered their ports in an empty table, one after the other, and the datagrams
-- of a round of the tracer reach a client whole and in order, then the round ends and the client
-- prints these ports in the order in which they were entered, and stops. The ports are 32-bit values
-- other than -1, and the client has received nothing before.
pub list_ports-enter_ports :
    (ports : List ℕ) (s s' : Shmstr) (fd cfd : ℤ) (rpl : List ℕ) (os cos : Os) (ctr : Trace)
    → s.ind ≡ 0
    → enter_ports ports s ≡ some s'
    → All (λ p. p < 2 ^ 32 - 1) ports
    → length rpl ≡ 4
    → taken cfd ctr ≡ 0
    → Delivers cos cfd (datagrams fd (trace_of (func2_round fd s' os [])))
    → (func2_round fd s' os [] ≡ done tt (trace_of (func2_round fd s' os [])))
      × (ctr' : Trace) × (list_ports (suc (length ports)) cfd rpl cos ctr
          ≡ done (map int_bytes ports, true) ctr')
unfolding datagrams
list_ports-enter_ports ports s s' fd cfd rpl os cos ctr empty entered small four start net =
    let (all, fits) = enter_ports-entries ports s s' (omega (arith, empty)) entered in
    let (tr', run, out) = func2_round-entries fd s' os [] fits in
    let listed : datagrams fd (trace_of (func2_round fd s' os []))
        ≡ map int_bytes (ports ++ end_mark ∷ []) =
      ap (λ o. datagrams fd (trace_of o)) run
      ∙ out
      ∙ ap (λ es. map int_bytes (es ++ end_mark ∷ []))
          (all ∙ ap (λ n. take n s.ports ++ ports) empty) in
    let (ctr', client) =
      list_ports_lem ports (datagrams fd (trace_of (func2_round fd s' os []))) cfd rpl cos ctr
        (drop_all rpl four) small net
        (ap (λ k. drop k (datagrams fd (trace_of (func2_round fd s' os [])))) start ∙ listed) in
    (run ∙ ap (λ o. done tt (trace_of o)) (sym run), ctr', client)
