-- ===== src/Tracer/Firsts.antt =====
-- The first occurrences of the items of a list, and those of them that an array does not hold yet.
use computer_networks_assign.Prelude.{
  ℕ, ◌≡◌, refl, ap, ◌∙◌, Bool, true, false, not, ◌&&◌, ◌||◌, List, [], ◌∷◌, ◌==◌, if◌then◌else◌,
  Bool-cases, inl, inr, arith,
}
use computer_networks_assign.Tracer.{Sent, mark}

unfoldable pub keep : (ℕ → Bool) → List ℕ → List ℕ
keep f [] = []
keep f (x ∷ xs) = if f x then x ∷ keep f xs else keep f xs

-- Each item of a list where it is first.
unfoldable pub firsts : List ℕ → List ℕ
unfolding keep
firsts [] = []
firsts (p ∷ ps) = p ∷ keep (λ q. not (q == p)) (firsts ps)

unfoldable pub occurs : ℕ → List ℕ → Bool
occurs p [] = false
occurs p (q ∷ qs) = p == q || occurs p qs

keep_ext : (f g : ℕ → Bool) (xs : List ℕ) → ((x : ℕ) → f x ≡ g x) → keep f xs ≡ keep g xs
unfolding keep
keep_ext f g [] h = refl
keep_ext f g (x ∷ xs) h = ground (arith, h x, keep_ext f g xs h)

keep-keep : (f g : ℕ → Bool) (xs : List ℕ) → keep f (keep g xs) ≡ keep (λ x. g x && f x) xs
unfolding keep
keep-keep f g [] = refl
keep-keep f g (x ∷ xs) = elim (Bool-cases (g x)) [
  | inl h ↦ ground (arith, h, keep-keep f g xs)
  | inr h ↦ ground (arith, h, keep-keep f g xs)
]

pub keep_all : (f : ℕ → Bool) (xs : List ℕ) → ((x : ℕ) → f x ≡ true) → keep f xs ≡ xs
unfolding keep
keep_all f [] h = refl
keep_all f (x ∷ xs) h = ground (arith, h x, keep_all f xs h)

-- The ports that are new to `sent`, after one more port.
unsent_sent :
    (sent : Sent) (p x : ℕ) → sent p ≡ true → (not (x == p) && not (sent x)) ≡ not (sent x)
unsent_sent sent p x h = elim (Bool-cases (x == p)) [
  | inr other ↦ ground (arith, other)
  | inl same ↦ let e : x ≡ p = ground arith in ground (arith, ap sent e, h)
]

unsent_mark : (sent : Sent) (p x : ℕ) → (not (x == p) && not (sent x)) ≡ not (mark p sent x)
unsent_mark sent p x = ground arith

unfoldable pub fresh : Sent → List ℕ → List ℕ
fresh sent ps = keep (λ p. not (sent p)) ps

pub fresh_sent :
    (sent : Sent) (p : ℕ) (ps : List ℕ)
    → sent p ≡ true
    → fresh sent (firsts (p ∷ ps)) ≡ fresh sent (firsts ps)
unfolding fresh firsts keep
fresh_sent sent p ps h = ground (
  arith,
  h,
  keep-keep (λ p. not (sent p)) (λ q. not (q == p)) (firsts ps)
      ∙ keep_ext (λ x. not (x == p) && not (sent x)) (λ x. not (sent x)) (firsts ps)
          (λ x. unsent_sent sent p x h),
)

pub fresh_unsent :
    (sent : Sent) (p : ℕ) (ps : List ℕ)
    → sent p ≡ false
    → fresh sent (firsts (p ∷ ps)) ≡ p ∷ fresh (mark p sent) (firsts ps)
unfolding fresh firsts keep
fresh_unsent sent p ps h = ground (
  arith,
  h,
  keep-keep (λ p. not (sent p)) (λ q. not (q == p)) (firsts ps)
      ∙ keep_ext (λ x. not (x == p) && not (sent x)) (λ x. not (mark p sent x)) (firsts ps)
          (unsent_mark sent p),
)

pub occurs_sent :
    (sent : Sent) (p q : ℕ) (ps : List ℕ)
    → sent q ≡ true
    → (sent p || occurs p ps) ≡ (sent p || occurs p (q ∷ ps))
unfolding occurs
occurs_sent sent p q ps h = elim (Bool-cases (p == q)) [
  | inr other ↦ ground (arith, other)
  | inl same ↦ let e : p ≡ q = ground arith in ground (arith, ap sent e, h)
]

pub occurs-mark :
    (sent : Sent) (p q : ℕ) (ps : List ℕ)
    → (mark q sent p || occurs p ps) ≡ (sent p || occurs p (q ∷ ps))
unfolding occurs
occurs-mark sent p q ps = ground arith
