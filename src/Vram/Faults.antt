-- ===== src/Vram/Faults.antt =====
-- Calls with a buffer of the user that is accessible only in part.
use computer_networks_assign.Prelude.{
  ℕ, zero, suc, ◌+◌, ◌-◌, ◌&&◌, ◌^◌, ◌≤◌, ◌<◌, ◌≡◌, refl, ap, ◌∙◌, Bool, true, false, Option, none,
  some, [], ltb, leb, if◌then◌else◌, arith, Bool-cases, Option-cases, inl, inr, ◌⊎◌,
}
use computer_networks_assign.Prelude.Int.{pos}
use computer_networks_assign.Vram.{
  vram_size, efault, Copied, Read, Written, Stored, iowrite8, read_loop, my_read, write_loop,
  my_write, clip,
}
use computer_networks_assign.Vram.Transfer.{segment, available, write_step}

-- The bytes from `i` on are accessible, `n` of them.
abbrev Accessible : (ℕ → Bool) → ℕ → ℕ → Type 0
Accessible ok i n = (j : ℕ) → j < n → ok (i + j) ≡ true

Accessible-suc :
    (ok : ℕ → Bool) (i n : ℕ) → ok i ≡ true → Accessible ok (i + 1) n → Accessible ok i (suc n)
Accessible-suc ok i n first others zero h = ap ok (omega arith) ∙ first
Accessible-suc ok i n first others (suc j) h = ap ok (omega arith) ∙ others j (omega (arith, h))

-- The loop copies all `n` bytes, or stops at the first byte that it cannot write.
read_loop_ways :
    (vram : ℕ → ℕ) (ok : ℕ → Bool) (off i n : ℕ)
    → off + i + n ≤ vram_size
    → ((read_loop vram ok off i n ≡ Copied.copied (segment vram (off + i) n)) × Accessible ok i n)
      ⊎ ((k : ℕ) × (k < n)
          × (ok (i + k) ≡ false)
          × Accessible ok i k
          × (read_loop vram ok off i n ≡ Copied.faulted (segment vram (off + i) k)))
unfolding read_loop segment
read_loop_ways vram ok off i zero h = inl (refl, λ j lt. absurd (omega (arith, lt)))
read_loop_ways vram ok off i (suc n) h = elim (Bool-cases (ok i)) [
  | inr bad ↦ inr (
    0,
    omega arith,
    ap ok (omega arith) ∙ bad,
    (λ j lt. absurd (omega (arith, lt))),
    ground arith,
  )
  | inl good ↦ elim (read_loop_ways vram ok off (i + 1) n (omega arith)) [
    | inl (all, fine) ↦ inl (ground (arith, all), Accessible-suc ok i n good fine)
    | inr (k, lt, bad, fine, some_of) ↦ inr (
      suc k,
      omega (arith, lt),
      ap ok (omega arith) ∙ bad,
      Accessible-suc ok i k good fine,
      ground (arith, some_of),
    )
  ]
]

-- The first `k` bytes are stored from `off + i` on, and the rest is as it was.
abbrev Holds : (ℕ → ℕ) → (ℕ → ℕ) → (ℕ → Option ℕ) → ℕ → ℕ → ℕ → Type 0
Holds vram' vram user off i k =
    (x : ℕ)
    → some (vram' x)
      ≡ (if leb (off + i) x && ltb x (off + i + k) then user (x - off) else some (vram x))

write_loop_ways :
    (vram : ℕ → ℕ) (user : ℕ → Option ℕ) (off i n : ℕ)
    → off + i + n ≤ vram_size
    → (vram' : ℕ → ℕ) × (k : ℕ) × Holds vram' vram user off i k
      × (((k ≡ n) × (write_loop vram user off i n ≡ Stored.stored vram'))
          ⊎ ((k < n)
              × (user (i + k) ≡ none)
              × (write_loop vram user off i n ≡ Stored.faulted vram')))
unfolding write_loop
write_loop_ways vram user off i zero h = (vram, 0, (λ x. ground arith), inl (refl, refl))
write_loop_ways vram user off i (suc n) h = elim (Option-cases (user i)) [
  | inl bad ↦
      (vram, 0, (λ x. ground arith), inr (omega arith, ap user (omega arith) ∙ bad, ground arith))
  | inr (byte, e) ↦
      let (vram', k, holds, way) =
        write_loop_ways (iowrite8 byte (off + i) vram) user off (i + 1) n (omega arith) in
      (
        vram',
        suc k,
        (λ x. write_step vram user off i k byte x (vram' x) e (holds x)),
        elim way [
          | inl (all, run) ↦ inl (ap suc all, ground (arith, run))
          | inr (lt, bad, run) ↦
              inr (omega (arith, lt), ap user (omega arith) ∙ bad, ground (arith, run))
        ],
      )
]

clip-available :
    (off len : ℕ) → len ≤ 2 ^ 63 → leb vram_size off ≡ false → clip off len ≡ available off len
clip-available off len h within = ground arith

available_bounds :
    (off len : ℕ) → leb vram_size off ≡ false → off + 0 + available off len ≤ vram_size
available_bounds off len within = ground arith

-- Whatever part of the user's buffer is accessible, a read of at most 2 ^ 63 bytes stays within the
-- mapping. It returns the
-- number of bytes that there are, with those bytes, and moves the position, if all of them are
-- accessible in the buffer; or it stops at the first byte of the buffer that is not accessible, with the
-- bytes before it, returns -EFAULT and leaves the position.
pub my_read_ways :
    (vram : ℕ → ℕ) (ok : ℕ → Bool) (len off : ℕ)
    → len ≤ 2 ^ 63
    → (r : Read) × (k : ℕ) × (my_read vram ok len off ≡ some r)
      × (r.buf ≡ segment vram off k)
      × ((j : ℕ) → j < k → ok j ≡ true)
      × (((k ≡ available off len) × (r.ret ≡ pos k) × (r.off ≡ off + k))
          ⊎ ((k < available off len) × (ok k ≡ false) × (r.ret ≡ efault) × (r.off ≡ off)))
unfolding my_read segment
my_read_ways vram ok len off h = elim (Bool-cases (leb vram_size off)) [
  | inl behind ↦ (
    record { ret = pos 0; off = off; buf = [] },
    0,
    ground arith,
    refl,
    (λ j lt. absurd (omega (arith, lt))),
    inl (ground arith, refl, omega arith),
  )
  | inr within ↦
      let n = available off len in
      elim (read_loop_ways vram ok off 0 n (available_bounds off len within)) [
        | inl (all, fine) ↦ (
          record { ret = pos n; off = off + n; buf = segment vram off n },
          n,
          ground (arith, clip-available off len h within, all),
          refl,
          (λ j lt. ap ok (omega arith) ∙ fine j lt),
          inl (refl, refl, refl),
        )
        | inr (k, lt, bad, fine, run) ↦ (
          record { ret = efault; off = off; buf = segment vram off k },
          k,
          ground (arith, clip-available off len h within, run),
          refl,
          (λ j lt. ap ok (omega arith) ∙ fine j lt),
          inr (lt, ap ok (omega arith) ∙ bad, refl, refl),
        )
      ]
]

-- The same of a write: the bytes before the first that is not accessible are stored, and nothing else.
my_write_ways :
    (vram : ℕ → ℕ) (user : ℕ → Option ℕ) (len off : ℕ)
    → len ≤ 2 ^ 63
    → (w : Written) × (k : ℕ) × (my_write vram user len off ≡ some w)
      × ((x : ℕ)
          → some (w.vram x)
            ≡ (if leb off x && ltb x (off + k) then user (x - off) else some (vram x)))
      × (((k ≡ available off len) × (w.ret ≡ pos k) × (w.off ≡ off + k))
          ⊎ ((k < available off len) × (user k ≡ none) × (w.ret ≡ efault) × (w.off ≡ off)))
unfolding my_write
my_write_ways vram user len off h = elim (Bool-cases (leb vram_size off)) [
  | inl behind ↦ (
    record { ret = pos 0; off = off; vram = vram },
    0,
    ground arith,
    (λ x. ground arith),
    inl (ground arith, refl, omega arith),
  )
  | inr within ↦
      let n = available off len in
      let (vram', k, holds, way) =
        write_loop_ways vram user off 0 n (available_bounds off len within) in
      elim way [
        | inl (all, run) ↦ (
          record { ret = pos n; off = off + n; vram = vram' },
          n,
          ground (arith, clip-available off len h within, run),
          (λ x. ground (arith, holds x, all)),
          inl (refl, refl, refl),
        )
        | inr (lt, bad, run) ↦ (
          record { ret = efault; off = off; vram = vram' },
          k,
          ground (arith, clip-available off len h within, run),
          (λ x. ground (arith, holds x)),
          inr (lt, ap user (omega arith) ∙ bad, refl, refl),
        )
      ]
]
