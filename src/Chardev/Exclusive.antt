-- ===== src/Chardev/Exclusive.antt =====
-- The device under any sequence of calls: one holder at a time, and no fault.
use computer_networks_assign.Prelude.{
  ap, drop, ◌≢◌, ℕ, ◌+◌, ◌-◌, ◌≤◌, ◌≡◌, refl, ◌∙◌, Option, none, some, List, [], ◌∷◌, length, ◌==◌,
  if◌then◌else◌, arith, ◌⊎◌, inl, inr, Bool-cases,
}
use computer_networks_assign.Prelude.Int.{is_neg}
use computer_networks_assign.Chardev.{
  Device, Decimal, message, buf_len, loaded, device_open, device_release, device_read, busy,
  device_write,
}
use computer_networks_assign.Chardev.Reading.{Pending, device_read-Pending, device_open-Pending}

-- The device, and the number of files that the kernel holds open on it.
pub record System : Type 0 where
  pub device : Device
  pub holders : ℕ

pub data Call : Type 0 where
  opens releases : Call
  reads : ℕ → Call
  writes : List ℕ → Call

-- The kernel counts a file when `device_open` returns 0, and releases, reads and writes an open file
-- only; `none` is a fault in the driver.
unfoldable pub step : Decimal → System → Call → Option System
step dec s opens = elim (device_open dec s.device) [
  | none ↦ none
  | some (d, r) ↦
      some (record { device = d; holders = if is_neg r then s.holders else s.holders + 1 })
]
step dec s releases =
    if s.holders == 0
    then some s
    else some (record { device = (device_release s.device).0; holders = s.holders - 1 })
step dec s (reads len) = if s.holders == 0 then some s else elim (device_read s.device len) [
  | none ↦ none
  | some r ↦ some (record s { device = r.device })
]
step dec s (writes text) =
    if s.holders == 0 then some s else some (record s { device = (device_write s.device text).0 })

unfoldable pub run : Decimal → System → List Call → Option System
run dec s [] = some s
run dec s (c ∷ cs) = elim (step dec s c) [ none ↦ none | some s' ↦ run dec s' cs ]

-- One holder at most, counted alike by the driver, the kernel and the module; a holder can read.
pub record Inv (s : System) : Type 0 where
  pub counted : s.device.device_open_count ≡ s.holders
  pub used : s.device.uses ≡ s.holders
  pub single : s.holders ≤ 1
  pub size : length s.device.msg ≡ buf_len
  pub shown : (s.holders ≡ 0) ⊎ ((text : List ℕ) × Pending s.device text)

-- The state after a call, without a fault and within the invariant.
abbrev Keeps : Decimal → System → Call → Type 0
Keeps dec s c = (s' : System) × (step dec s c ≡ some s') × Inv s'

device_open_held :
    (dec : Decimal) (d : Device) → d.device_open_count ≢ 0 → device_open dec d ≡ some (d, busy)
unfolding device_open
device_open_held dec d h = ground arith

opens-Keeps : (dec : Decimal) (s : System) → Inv s → Keeps dec s opens
unfolding step
opens-Keeps dec s v = elim (Bool-cases (s.holders == 0)) [
  | inl free ↦
      let (d, opened, w, one, uses, size, _) =
        device_open-Pending dec s.device (ground (arith, v.counted)) v.size in
      (
        record { device = d; holders = s.holders + 1 },
        ground (arith, opened),
        record {
          counted = ground (arith, one);
          used = ground (arith, uses, v.used);
          single = ground arith;
          size = size;
          shown = inr (message dec s.device.counter, w);
        },
      )
  | inr held ↦ (s, ground (arith, device_open_held dec s.device (ground (arith, v.counted))), v)
]

releases-Keeps : (dec : Decimal) (s : System) → Inv s → Keeps dec s releases
unfolding step device_release
releases-Keeps dec s v = elim (Bool-cases (s.holders == 0)) [
  | inl free ↦ (s, ground arith, v)
  | inr held ↦ (
    record { device = (device_release s.device).0; holders = s.holders - 1 },
    ground arith,
    record {
      counted = ground (arith, v.counted, v.single);
      used = ground (arith, v.used);
      single = ground (arith, v.single);
      size = v.size;
      shown = inl (ground (arith, v.single));
    },
  )
]

reads-Keeps : (dec : Decimal) (s : System) (len : ℕ) → Inv s → Keeps dec s (reads len)
unfolding step
reads-Keeps dec s len v = elim v.shown [
  | inl free ↦ (s, ground arith, v)
  | inr (text, w) ↦ elim (Bool-cases (s.holders == 0)) [
    | inl free ↦ (s, ground arith, v)
    | inr held ↦
        let (r, run, _, _, w', same) = device_read-Pending s.device text len w in
        (
          record s { device = r.device },
          ground (arith, run),
          record {
            counted = ap (λ (d : Device). d.device_open_count) same ∙ v.counted;
            used = ap (λ (d : Device). d.uses) same ∙ v.used;
            single = v.single;
            size = ap (λ (d : Device). length d.msg) same ∙ v.size;
            shown = inr (drop len text, w');
          },
        )
  ]
]

writes-Keeps : (dec : Decimal) (s : System) (text : List ℕ) → Inv s → Keeps dec s (writes text)
unfolding step device_write
writes-Keeps dec s text v = (s, ground arith, v)

step-Keeps : (dec : Decimal) (s : System) (c : Call) → Inv s → Keeps dec s c
step-Keeps dec s opens v = opens-Keeps dec s v
step-Keeps dec s releases v = releases-Keeps dec s v
step-Keeps dec s (reads len) v = reads-Keeps dec s len v
step-Keeps dec s (writes text) v = writes-Keeps dec s text v

run-Inv :
    (dec : Decimal) (s : System) (cs : List Call)
    → Inv s
    → (s' : System) × (run dec s cs ≡ some s') × Inv s'
unfolding run
run-Inv dec s [] v = (s, refl, v)
run-Inv dec s (c ∷ cs) v =
    let (mid, e, w) = step-Keeps dec s c v in
    let (s', e', w') = run-Inv dec mid cs w in (s', ground (arith, e, e'), w')

abbrev pub fresh : System
fresh = record { device = loaded; holders = 0 }

fresh-Inv : Inv fresh
fresh-Inv = record {
  counted = refl;
  used = refl;
  single = omega arith;
  size = refl;
  shown = inl refl;
}

-- After any calls on the loaded driver: none of them faulted, at most one file is open, and the
-- driver's flag and the module's use count are both the number of open files.
pub run_exclusive :
    (dec : Decimal) (cs : List Call)
    → (s : System) × (run dec fresh cs ≡ some s)
      × (s.holders ≤ 1)
      × (s.device.device_open_count ≡ s.holders)
      × (s.device.uses ≡ s.holders)
run_exclusive dec cs =
    let (s, e, v) = run-Inv dec fresh cs fresh-Inv in (s, e, v.single, v.counted, v.used)
