-- ===== src/IssService/Introducing.antt =====
-- A service and iss.c together: how iss.c learns of a service that starts.
use computer_networks_assign.Prelude.{
  ℕ, ◌^◌, ◌<◌, ◌≡◌, ◌≢◌, refl, sym, ◌∙◌, subst, List, [], ◌∷◌, ◌++◌, length, get_elem?-append,
  get_elem?-append_last, arith,
}
use computer_networks_assign.Prelude.Int.{ℤ, pos}
use computer_networks_assign.Os.{af_inet, stream, loopback_port, accept, recv, Trace, Os, done}
use computer_networks_assign.Os.Life.{listening, sock_state, Fresh}
use computer_networks_assign.Tracer.{int_bytes}
use computer_networks_assign.Iss.{Iss, max_items, partner, index, map_to, new_partner}
use computer_networks_assign.IssService.{start}
use computer_networks_assign.IssService.Starting.{sent, start_lem}

-- The bytes of an `int` determine it.
int_bytes_injective : (a b : ℕ) → a < 2 ^ 32 → b < 2 ^ 32 → int_bytes a ≡ int_bytes b → a ≡ b
unfolding int_bytes
int_bytes_injective a b h k e = ground arith

two_injective : (xs ys us vs : List ℕ) → xs ∷ ys ∷ [] ≡ us ∷ vs ∷ [] → (xs ≡ us) × (ys ≡ vs)
two_injective xs ys us vs e = (cc, cc)

-- The connection that iss.c accepts at the trace `t`, and the traces behind this and the next call.
abbrev pub connection : Os → Trace → ℤ → ℤ
connection ios t fd = (ios t (accept fd)).ret

abbrev accepted : Os → Trace → ℤ → Trace
accepted ios t fd = record { call = accept fd; reply = ios t (accept fd) } ∷ t

abbrev informed : Os → Trace → ℤ → Trace
informed ios t fd =
    let c = recv (connection ios t fd) in
    record { call = c; reply = ios (accepted ios t fd) c } ∷ accepted ios t fd

-- iss.c gets the two numbers whole from the connection that it accepts on `fd`.
pub record Relays (ios : Os) (t : Trace) (fd : ℤ) (first second : ℕ) : Type 0 where
  pub first_ret : (ios (accepted ios t fd) (recv (connection ios t fd))).ret ≡ pos 4
  pub first_passed : (ios (accepted ios t fd) (recv (connection ios t fd))).passed ≡ pos first
  pub second_ret : (ios (informed ios t fd) (recv (connection ios t fd))).ret ≡ pos 4
  pub second_passed : (ios (informed ios t fd) (recv (connection ios t fd))).passed ≡ pos second

abbrev introduced : Iss → ℤ → ℕ → ℕ → Iss
introduced v nusfd port pid = record v {
  map = map_to port (length v.partners) v.map;
  partners = v.partners ++ record { nusfd = nusfd; pid = pos pid } ∷ [];
}

new_partner_lem :
    (port pid : ℕ) (fd : ℤ) (v : Iss) (ios : Os) (t : Trace)
    → port < 2 ^ 16
    → length v.partners < max_items
    → Relays ios t fd port pid
    → (t' : Trace) × (new_partner fd v ios t
        ≡ done (introduced v (connection ios t fd) port pid) t')
unfolding new_partner index
new_partner_lem port pid fd v ios t small room r =
    let c = recv (connection ios t fd) in
    (
      record { call = c; reply = ios (informed ios t fd) c } ∷ informed ios t fd,
      ground (arith, r.first_ret, r.first_passed, r.second_ret, r.second_passed),
    )

introduced_self :
    (v : Iss) (nusfd : ℤ) (port pid : ℕ)
    → partner (introduced v nusfd port pid) port ≡ record { nusfd = nusfd; pid = pos pid }
unfolding partner
introduced_self v nusfd port pid = ground (
  arith,
  get_elem?-append_last v.partners (record { nusfd = nusfd; pid = pos pid }) (length v.partners)
      refl,
)

introduced_other :
    (v : Iss) (nusfd : ℤ) (port pid q : ℕ)
    → q ≢ port
    → v.map q < length v.partners
    → partner (introduced v nusfd port pid) q ≡ partner v q
unfolding partner
introduced_other v nusfd port pid q differ known = ground (
  arith,
  get_elem?-append v.partners (record { nusfd = nusfd; pid = pos pid } ∷ []) (v.map q) known,
)

-- When a service has started, on a kernel that does not give out open descriptors, its socket listens on
-- its port; and when iss.c, which has room for it, gets whole what the service sent over its connection,
-- iss.c then knows the service under this port, with the connection and the process id, and the services
-- of other ports as before. The port is below 2 ^ 16, and all numbers are of 32 bits.
pub new_partner-start :
    (port pid first second : ℕ) (usfd sfd fd : ℤ) (v : Iss) (os ios : Os) (tr t : Trace)
    → Fresh os
    → start port pid os [] ≡ done (usfd, sfd) tr
    → sent usfd tr ≡ int_bytes first ∷ int_bytes second ∷ []
    → Relays ios t fd first second
    → port < 2 ^ 16
    → pid < 2 ^ 32
    → first < 2 ^ 32
    → second < 2 ^ 32
    → length v.partners < max_items
    → (sock_state sfd tr ≡ listening af_inet stream (loopback_port port))
      × (v' : Iss) × (t' : Trace) × (new_partner fd v ios t ≡ done v' t')
      × (partner v' port ≡ record { nusfd = connection ios t fd; pid = pos pid })
      × ((q : ℕ) → q ≢ port → v.map q < length v.partners → partner v' q ≡ partner v q)
unfolding sent
new_partner-start port pid first second usfd sfd fd v os ios tr t fresh run out r small p f s room =
    let (_, _, _, listens, told) = start_lem port pid usfd sfd os [] tr fresh run in
    let (eq1, eq2) =
      two_injective (int_bytes first) (int_bytes second) (int_bytes port) (int_bytes pid)
        (sym out ∙ told) in
    let port_eq = int_bytes_injective first port f (omega arith) eq1 in
    let pid_eq = int_bytes_injective second pid s p eq2 in
    let r' : Relays ios t fd port pid =
      subst (λ n. Relays ios t fd port n) pid_eq
        (subst (λ n. Relays ios t fd n second) port_eq r) in
    let (t', known) = new_partner_lem port pid fd v ios t small room r' in
    let nusfd = connection ios t fd in
    (
      listens,
      introduced v nusfd port pid,
      t',
      known,
      introduced_self v nusfd port pid,
      introduced_other v nusfd port pid,
    )
