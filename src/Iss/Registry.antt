-- ===== src/Iss/Registry.antt =====
-- Which services have registered, and where the clients of a port go.
use computer_networks_assign.Prelude.{
  ℕ, zero, suc, ◌<◌, ◌==◌, if◌then◌else◌, Option, none, some, ◌++◌, map, length, length-append,
  get_elem?, get_elem?-append, get_elem?-append_last, refl, ap, sym, ◌∙◌, Bool-cases, Option-cases,
  ◌⊎◌, inl, inr, ◌≡◌, List, [], ◌∷◌, arith,
}
use computer_networks_assign.Prelude.Int.{ℤ, pos, negsuc}
use computer_networks_assign.Os.{Event, recv, accept, Trace, Os, done}
use computer_networks_assign.Iss.{Partner, partner, new_partner, index, filled, map_to, Iss}

-- A service that has registered: the port that it named, and the connection to it.
pub record Registration : Type 0 where
  pub port : ℕ
  pub nusfd : ℤ

-- The connection to the service that registered last for the port.
abbrev pub service_of : List Registration → ℕ → Option ℤ
service_of [] port = none
service_of (r ∷ rs) port =
    let rest = service_of rs port in if r.port == port then some r.nusfd else rest

-- The connection to the service that registered first, or 0 if none has.
abbrev pub oldest : List Registration → ℤ
oldest [] = pos 0
oldest (r ∷ []) = r.nusfd
oldest (r ∷ q ∷ rs) = oldest (q ∷ rs)

-- Where the clients of a port go, by the registrations, the newest first: to the service that registered
-- last for the port; if none has, to the one that registered first of all.
abbrev pub destination : List Registration → ℕ → ℤ
destination rs port = elim (service_of rs port) [ none ↦ oldest rs | some channel ↦ channel ]

-- The place of the port's last registration, or 0 if there is none, and the connections in order.
abbrev pub place : List Registration → ℕ → ℕ
place [] port = 0
place (r ∷ rs) port = let rest = place rs port in if r.port == port then length rs else rest

abbrev pub channels : List Registration → List ℤ
channels [] = []
channels (r ∷ rs) = channels rs ++ r.nusfd ∷ []

-- The tables hold these registrations.
pub record Registered (v : Iss) (rs : List Registration) : Type 0 where
  pub places : (port : ℕ) → v.map port ≡ place rs port
  pub entries : map (λ (p : Partner). p.nusfd) v.partners ≡ channels rs

length-channels : (rs : List Registration) → length (channels rs) ≡ length rs
length-channels [] = refl
length-channels (r ∷ rs) =
    omega (arith, length-append (channels rs) (r.nusfd ∷ []), length-channels rs)

nusfds : List Partner → List ℤ
nusfds = map (λ (p : Partner). p.nusfd)

length-nusfds : (ps : List Partner) → length (nusfds ps) ≡ length ps
unfolding nusfds
length-nusfds [] = refl
length-nusfds (p ∷ ps) = ap suc (length-nusfds ps)

nusfds-append :
    (ps : List Partner) (p : Partner) → nusfds (ps ++ p ∷ []) ≡ nusfds ps ++ p.nusfd ∷ []
unfolding nusfds
nusfds-append [] p = refl
nusfds-append (q ∷ ps) p = ap (λ cs. q.nusfd ∷ cs) (nusfds-append ps p)

new_entry :
    (usfd : ℤ) (v v' : Iss) (os : Os) (tr tr' : Trace) (z : ℤ)
    → let a : Event = record { call = accept usfd; reply = os tr (accept usfd) } in
      let p = os (a ∷ tr) (recv a.reply.ret) in
      filled p.ret p.passed (pos 0) ≡ z
      → new_partner usfd v os tr ≡ done v' tr'
      → (port : ℕ) × (v'.map ≡ map_to port (length v.partners) v.map)
        × ((pid : ℤ) × (v'.partners ≡ v.partners ++ record { nusfd = a.reply.ret; pid = pid } ∷ []))
unfolding new_partner index
new_entry usfd v v' os tr tr' (negsuc n) named e = absurd (ground arith)
new_entry usfd v v' os tr tr' (pos n) named e =
    let a : Event = record { call = accept usfd; reply = os tr (accept usfd) } in
    let c = recv a.reply.ret in
    let b : Event = record { call = c; reply = os (a ∷ tr) c } in
    let i = os (b ∷ a ∷ tr) c in (n, ground arith, (filled i.ret i.passed (pos 0), ground arith))

-- `new_partner` enters the service that has connected, under the port that it names.
new_partner-Registered :
    (usfd : ℤ) (v v' : Iss) (rs : List Registration) (os : Os) (tr tr' : Trace)
    → new_partner usfd v os tr ≡ done v' tr'
    → Registered v rs
    → (r : Registration) × (r.nusfd ≡ (os tr (accept usfd)).ret) × Registered v' (r ∷ rs)
unfolding nusfds
new_partner-Registered usfd v v' rs os tr tr' e g =
    let (port, mapped, (pid, more)) = new_entry usfd v v' os tr tr' _ refl e in
    let channel = (os tr (accept usfd)).ret in
    let count : length v.partners ≡ length rs =
      sym (length-nusfds v.partners) ∙ ap length g.entries ∙ length-channels rs in
    (
      record { port = port; nusfd = channel },
      refl,
      record {
        places = λ x. ap (λ m. m x) mapped ∙ ground (arith, g.places x, count);
        entries =
            ap nusfds more
            ∙ nusfds-append v.partners (record { nusfd = channel; pid = pid })
            ∙ ap (λ cs. cs ++ channel ∷ []) g.entries;
      },
    )

place_bound :
    (r : Registration) (rs : List Registration) (port : ℕ) → place (r ∷ rs) port < length (r ∷ rs)
place_bound r [] port = ground arith
place_bound r (q ∷ rs) port = ground (arith, place_bound q rs port)

item_or_zero : List ℤ → ℕ → ℤ
item_or_zero cs i = elim (get_elem? cs i) [ none ↦ pos 0 | some c ↦ c ]

item-destination :
    (rs : List Registration) (port : ℕ)
    → item_or_zero (channels rs) (place rs port) ≡ destination rs port
unfolding item_or_zero
item-destination [] port = refl
item-destination (r ∷ []) port = ground arith
item-destination (r ∷ q ∷ rs) port = elim (Bool-cases (r.port == port)) [
  | inl last ↦ ground (
    arith,
    get_elem?-append_last (channels (q ∷ rs)) r.nusfd (length (q ∷ rs))
        (sym (length-channels (q ∷ rs))),
  )
  | inr earlier ↦
      let within : place (q ∷ rs) port < length (channels (q ∷ rs)) =
        omega (arith, place_bound q rs port, length-channels (q ∷ rs)) in
      ground (
        arith,
        get_elem?-append (channels (q ∷ rs)) (r.nusfd ∷ []) (place (q ∷ rs) port) within,
        item-destination (q ∷ rs) port,
      )
]

get_elem?-nusfd :
    (ps : List Partner) (i : ℕ)
    → item_or_zero (map (λ (p : Partner). p.nusfd) ps) i
      ≡ (elim (get_elem? ps i) [ none ↦ pos 0 | some p ↦ p.nusfd ])
unfolding item_or_zero
get_elem?-nusfd [] i = refl
get_elem?-nusfd (p ∷ ps) zero = refl
get_elem?-nusfd (p ∷ ps) (suc i) = get_elem?-nusfd ps i

pub partner-destination :
    (v : Iss) (rs : List Registration) (port : ℕ)
    → Registered v rs
    → (partner v port).nusfd ≡ destination rs port
unfolding partner
partner-destination v rs port g =
    found (Option-cases (get_elem? v.partners (v.map port)))
    ∙ sym (get_elem?-nusfd v.partners (v.map port))
    ∙ ap (λ cs. item_or_zero cs (v.map port)) g.entries
    ∙ ap (item_or_zero (channels rs)) (g.places port)
    ∙ item-destination rs port
  where
    found :
        ((get_elem? v.partners (v.map port) ≡ none)
          ⊎ ((p : Partner) × (get_elem? v.partners (v.map port) ≡ some p)))
        → (partner v port).nusfd
          ≡ (elim (get_elem? v.partners (v.map port)) [ none ↦ pos 0 | some p ↦ p.nusfd ])
    found (inl e) = ground (arith, e)
    found (inr (p, e)) = ground (arith, e)
