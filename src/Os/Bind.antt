-- ===== src/Os/Bind.antt =====
-- Inversion of a sequence of calls that returned, and of those that ended the process.
use computer_networks_assign.Prelude.{◌≡◌, refl}
use computer_networks_assign.Os.{Trace, Os, Outcome, done, exited, crashed, M, ◌>>=◌, ◌>>◌}

abbrev Split : {A B : Type 0} → Os → Outcome A → (A → M B) → B → Trace → Type 0
Split {A} os o f b tr' = (a : A) × (mid : Trace) × (o ≡ done a mid) × (f a os mid ≡ done b tr')

abbrev and_then : {A B : Type 0} → Os → Outcome A → (A → M B) → Outcome B
and_then os o f = elim o [
  | done a mid ↦ f a os mid
  | exited n mid ↦ exited n mid
  | crashed mid ↦ crashed mid
]

and_then-done :
    {A B : Type 0} (os : Os) (o : Outcome A) (f : A → M B) (b : B) (tr' : Trace)
    → and_then os o f ≡ done b tr'
    → Split os o f b tr'
and_then-done os (done a mid) f b tr' e = (a, mid, refl, e)
and_then-done os (exited n mid) f b tr' e = cc
and_then-done os (crashed mid) f b tr' e = cc

pub done_injective : {A : Type 0} (a b : A) (tr tr' : Trace) → done a tr ≡ done b tr' → a ≡ b
done_injective a b tr tr' e = cc

pub >>=-done :
    {A B : Type 0} (m : M A) (f : A → M B) (os : Os) (tr tr' : Trace) (b : B)
    → (m >>= f) os tr ≡ done b tr'
    → (a : A) × (mid : Trace) × (m os tr ≡ done a mid) × (f a os mid ≡ done b tr')
>>=-done m f os tr tr' b e = and_then-done os (m os tr) f b tr' e

pub >>-done :
    {B : Type 0} (m : M (Unit {0})) (k : M B) (os : Os) (tr tr' : Trace) (b : B)
    → (m >> k) os tr ≡ done b tr'
    → (mid : Trace) × (m os tr ≡ done tt mid) × (k os mid ≡ done b tr')
>>-done m k os tr tr' b e =
    let (a, mid, first, second) = >>=-done m (λ _. k) os tr tr' b e in (mid, first, second)
