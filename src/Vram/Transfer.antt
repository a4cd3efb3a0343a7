-- ===== src/Vram/Transfer.antt =====
-- The file of the driver is one of `vram_size` bytes.
use computer_networks_assign.Prelude.{
  ℕ, zero, suc, ◌+◌, ◌-◌, ◌^◌, ◌≤◌, ◌<◌, ◌≡◌, refl, ap, ◌∙◌, Bool, true, Option, none, some, List,
  [], ◌∷◌, length, get_elem?, take, ltb, leb, ◌==◌, if◌then◌else◌, ◌&&◌, arith, Bool-cases,
  Option-cases, ◌≢◌, inl, inr,
}
use computer_networks_assign.Prelude.Int.{pos}
use computer_networks_assign.Vram.{
  vram_size, copied, Written, stored, iowrite8, read_loop, my_read, write_loop, my_write,
}

-- The bytes of the memory from `p` on.
unfoldable pub segment : (ℕ → ℕ) → ℕ → ℕ → List ℕ
segment vram p zero = []
segment vram p (suc n) = vram p ∷ segment vram (p + 1) n

-- How many of `len` bytes from `off` on are in the memory.
abbrev pub available : ℕ → ℕ → ℕ
available off len =
    if leb vram_size off then 0 else if leb len (vram_size - off) then len else vram_size - off

read_loop-segment :
    (vram : ℕ → ℕ) (ok : ℕ → Bool) (off i n : ℕ)
    → off + i + n ≤ vram_size
    → ((j : ℕ) → ok j ≡ true)
    → read_loop vram ok off i n ≡ copied (segment vram (off + i) n)
unfolding read_loop segment
read_loop-segment vram ok off i zero h k = refl
read_loop-segment vram ok off i (suc n) h k =
    ground (arith, k i, read_loop-segment vram ok off (i + 1) n (omega arith) k)

-- A read of `len` bytes into an accessible buffer gives the bytes of the memory from the position on,
-- as many as there are, and moves the position behind them. `len` is at most 2 ^ 63, as the kernel
-- sees to.
pub my_read_lem :
    (vram : ℕ → ℕ) (ok : ℕ → Bool) (len off : ℕ)
    → len ≤ 2 ^ 63
    → ((j : ℕ) → ok j ≡ true)
    → my_read vram ok len off
      ≡ some (record {
        ret = pos (available off len);
        off = off + available off len;
        buf = segment vram off (available off len);
      })
unfolding my_read segment
my_read_lem vram ok len off h k = elim (Bool-cases (leb vram_size off)) [
  | inl behind ↦ ground arith
  | inr within ↦ elim (Bool-cases (leb len (vram_size - off))) [
    | inl fits ↦ ground (arith, read_loop-segment vram ok off 0 len (ground arith) k)
    | inr long ↦ ground (arith, read_loop-segment vram ok off 0 (vram_size - off) (ground arith) k)
  ]
]

-- What a byte at `x` is after one more store.
pub write_step :
    (vram : ℕ → ℕ) (user : ℕ → Option ℕ) (off i n byte x b : ℕ)
    → user i ≡ some byte
    → some b ≡ (
        if leb (off + (i + 1)) x && ltb x (off + (i + 1) + n)
        then user (x - off)
        else some (iowrite8 byte (off + i) vram x))
    → some b
      ≡ (if leb (off + i) x && ltb x (off + i + suc n) then user (x - off) else some (vram x))
write_step vram user off i n byte x b e h = elim (Bool-cases (x == off + i)) [
  | inl here ↦
      let at : x - off ≡ i = ground arith in
      let read : user (x - off) ≡ some byte = ap user at ∙ e in ground arith
  | inr there ↦ ground arith
]

write_loop-Stores :
    (vram : ℕ → ℕ) (user : ℕ → Option ℕ) (off i n : ℕ)
    → off + i + n ≤ vram_size
    → ((j : ℕ) → j < i + n → user j ≢ none)
    → (vram' : ℕ → ℕ) × (write_loop vram user off i n ≡ stored vram')
      × ((x : ℕ)
          → some (vram' x)
            ≡ (if leb (off + i) x && ltb x (off + i + n) then user (x - off) else some (vram x)))
unfolding write_loop
write_loop-Stores vram user off i zero h k = (vram, refl, λ x. ground arith)
write_loop-Stores vram user off i (suc n) h k = elim (Option-cases (user i)) [
  | inl fails ↦ absurd (k i (omega arith) fails)
  | inr (byte, e) ↦
      let (vram', run, bytes) =
        write_loop-Stores (iowrite8 byte (off + i) vram) user off (i + 1) n (omega arith)
          (λ j lt. k j (omega arith)) in
      (
        vram',
        ground (arith, e, run),
        λ x. write_step vram user off i n byte x (vram' x) e (bytes x),
      )
]

-- A write of `len` bytes of an accessible buffer stores as many of them as there is room for, from the
-- position on, leaves every other byte as it was, and moves the position behind them.
pub my_write_lem :
    (vram : ℕ → ℕ) (user : ℕ → Option ℕ) (len off : ℕ)
    → len ≤ 2 ^ 63
    → ((j : ℕ) → j < len → user j ≢ none)
    → (vram' : ℕ → ℕ) × (my_write vram user len off
        ≡ some
            (record { ret = pos (available off len); off = off + available off len; vram = vram' }))
      × ((x : ℕ)
          → some (vram' x) ≡ (
              if leb off x && ltb x (off + available off len)
              then user (x - off)
              else some (vram x)))
unfolding my_write
my_write_lem vram user len off h k = elim (Bool-cases (leb vram_size off)) [
  | inl behind ↦ (vram, ground arith, λ x. ground arith)
  | inr within ↦ elim (Bool-cases (leb len (vram_size - off))) [
    | inl fits ↦
        let (vram', run, bytes) =
          write_loop-Stores vram user off 0 len (ground arith) (λ j lt. k j (omega arith)) in
        (vram', ground (arith, run), λ x. ground (arith, bytes x))
    | inr long ↦
        let (vram', run, bytes) =
          write_loop-Stores vram user off 0 (vram_size - off) (ground arith)
            (λ j lt. k j (ground arith)) in
        (vram', ground (arith, run), λ x. ground (arith, bytes x))
  ]
]

minus_plus : (p j : ℕ) → p + j - p ≡ j
minus_plus p j = omega arith

segment-take :
    (src : List ℕ) (vram : ℕ → ℕ) (p n : ℕ)
    → n ≤ length src
    → ((j : ℕ) → j < n → some (vram (p + j)) ≡ get_elem? src j)
    → segment vram p n ≡ take n src
unfolding segment
segment-take src vram p zero h k = refl
segment-take [] vram p (suc n) h k = absurd (omega arith)
segment-take (b ∷ bs) vram p (suc n) h k = ground (
  arith,
  k 0 (omega arith),
  segment-take bs vram (p + 1) n (omega arith)
      (λ j lt. ap (λ q. some (vram q)) (omega arith) ∙ k (suc j) (omega arith)),
)

get_elem?-ne-none : (src : List ℕ) (j : ℕ) → j < length src → get_elem? src j ≢ none
get_elem?-ne-none [] j h = elim h [ ]
get_elem?-ne-none (b ∷ bs) zero h = λ e. cc
get_elem?-ne-none (b ∷ bs) (suc j) h = get_elem?-ne-none bs j (omega arith)

-- What is written is read back: after a write of `len` bytes, at most 2 ^ 63, of a buffer that holds
-- them, a read of `len` bytes at the same position, into a buffer that is accessible, gives those of
-- the buffer that there was room for, and both calls return their number.
pub my_read-my_write :
    (vram : ℕ → ℕ) (src : List ℕ) (ok : ℕ → Bool) (len off : ℕ)
    → len ≤ 2 ^ 63
    → len ≤ length src
    → ((j : ℕ) → ok j ≡ true)
    → (w : Written) × (my_write vram (get_elem? src) len off ≡ some w)
      × (w.ret ≡ pos (available off len))
      × (my_read w.vram ok len off
          ≡ some (record { ret = w.ret; off = w.off; buf = take (available off len) src }))
my_read-my_write vram src ok len off h fits k =
    let (vram', run, bytes) =
      my_write_lem vram (get_elem? src) len off h
        (λ j lt. get_elem?-ne-none src j (omega (arith, lt, fits))) in
    let n = available off len in
    let short : n ≤ length src = ground arith in
    let read : segment vram' off n ≡ take n src =
      segment-take src vram' off n short
        (λ j lt. ground (arith, bytes (off + j), ap (get_elem? src) (minus_plus off j))) in
    (
      record { ret = pos n; off = off + n; vram = vram' },
      run,
      refl,
      my_read_lem vram' ok len off h k
          ∙ ap (λ bs. some (record { ret = pos n; off = off + n; buf = bs })) read,
    )
