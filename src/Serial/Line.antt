-- ===== src/Serial/Line.antt =====
-- A line is read from the port into a buffer.
use xanadu_os.Base.{
  ℕ, zero, suc, ◌+◌, ◌-◌, ◌^◌, ◌≤◌, ◌<◌, ◌≡◌, ◌⊎◌, inl, inr, refl, ap, sym, ◌∙◌, Bool, true, false,
  arith, some, if◌then◌else◌,
}
use mathlib.Core.Path.{subst}
use xanadu_os.Base.Words.{u8, sub32, test_bit}
use xanadu_os.Base.Memory.{Words, write, write_same, write_other}
use xanadu_os.Base.Device.{Machine, Ends, ends, Ends-bind, Ends-if, Ends_inv, Ends_weaken}
use xanadu_os.Serial.{wait_serial_read, read_loop, serial_read_buf, ends_line, line_stat_reg}

-- A line in the buffer from index `i` on, in front of index `last`: `k` bytes that end no line; then a
-- byte that ends one, and a NUL byte, when the result is 0; else the NUL byte, at `last`. Nothing else
-- is written.
pub LineFrom : (i last : ℕ) (buf : Words) → ℕ × Words → Type 0
LineFrom i last buf r =
    (k : ℕ) × (i ≤ k)
    × ((j : ℕ) → i ≤ j → j < k → ends_line (r.1 j) ≡ false)
    × (((r.0 ≡ 0)
          × (k < last)
          × (ends_line (r.1 k) ≡ true)
          × (r.1 (k + 1) ≡ 0)
          × ((j : ℕ) → (j < i) ⊎ (k + 1 < j) → r.1 j ≡ buf j))
        ⊎ ((r.0 ≡ 1)
            × (k ≡ last)
            × (r.1 last ≡ 0)
            × ((j : ℕ) → (j < i) ⊎ (last < j) → r.1 j ≡ buf j)))

line_here :
    (n i : ℕ) (buf : Words) (c : ℕ)
    → ends_line c ≡ true
    → LineFrom i (i + suc n) buf (0, write (write buf i c) (i + 1) 0)
unfolding LineFrom
line_here n i buf c y =
    let here : write (write buf i c) (i + 1) 0 i ≡ c =
      write_other (write buf i c) (i + 1) 0 i (omega arith) ∙ write_same buf i c in
    (
      i,
      omega arith,
      λ j a b. absurd (omega (arith, a, b)),
      inl (
        refl,
        omega arith,
        ap ends_line here ∙ y,
        write_same (write buf i c) (i + 1) 0,
        λ j o.
            write_other (write buf i c) (i + 1) 0 j (omega (arith, o))
            ∙ write_other buf i c j (omega (arith, o)),
      ),
    )

line_later :
    (n i : ℕ) (buf : Words) (c : ℕ) (r : ℕ × Words)
    → ends_line c ≡ false
    → LineFrom (i + 1) (i + 1 + n) (write buf i c) r
    → LineFrom i (i + suc n) buf r
unfolding LineFrom
line_later n i buf c r goes_on (k, a, before, rest) =
    let last : i + 1 + n ≡ i + suc n = omega arith in
    let frame : (j : ℕ) → (j < i + 1) → r.1 j ≡ write buf i c j =
      λ j o. elim rest [ inl found ↦ found.4 j (inl o) | inr full ↦ full.3 j (inl o) ] in
    let here : r.1 i ≡ c = frame i (omega arith) ∙ write_same buf i c in
    let earlier : (j : ℕ) → i ≤ j → j < k → ends_line (r.1 j) ≡ false = λ j x y.
      let split : (i ≡ j) ⊎ (i + 1 ≤ j) = omega (arith, x) in
      elim split [
        | inl e ↦ ap (λ t. ends_line (r.1 t)) (sym e) ∙ ap ends_line here ∙ goes_on
        | inr l ↦ before j l y
      ] in
    (
      k,
      omega (arith, a),
      earlier,
      elim rest [
        | inl found ↦ inl (
          found.0,
          omega (arith, found.1),
          found.2,
          found.3,
          λ j o. found.4 j (omega (arith, o)) ∙ write_other buf i c j (omega (arith, a, o)),
        )
        | inr full ↦ inr (
          full.0,
          full.1 ∙ last,
          ap r.1 (sym last) ∙ full.2,
          λ j o. full.3 j (omega (arith, o)) ∙ write_other buf i c j (omega (arith, o)),
        )
      ],
    )

behind :
    (buf_len : ℕ) (buf : Words) (r : ℕ × Words)
    → LineFrom 0 (buf_len - 1) buf r
    → (j : ℕ) → buf_len ≤ j
    → 0 < buf_len
    → r.1 j ≡ buf j
unfolding LineFrom
behind buf_len buf r (k, a, before, rest) j b p = elim rest [
  | inl found ↦ found.4 j (inr (omega (arith, b, found.1)))
  | inr full ↦ full.3 j (inr (omega (arith, b, p)))
]

module _ {ℓ} {D : Type ℓ} (m : Machine D) where
  -- One of the next `n` reads of the status shows a byte.
  unfoldable pub arrives_within : (port n : ℕ) → D → Bool
  arrives_within port zero d = false
  arrives_within port (suc n) d =
      let later = arrives_within port n (m.inb (port + line_stat_reg) d).1 in
      if test_bit (u8 (m.inb (port + line_stat_reg) d).0) 0 then true else later

  wait_serial_read-byte :
      (port fuel : ℕ) (d : D)
      → arrives_within port fuel d ≡ true
      → Ends (λ c d'. c < 256) (wait_serial_read m fuel port d)
  unfolding wait_serial_read arrives_within
  wait_serial_read-byte port zero d h = absurd (ground (arith, h))
  wait_serial_read-byte port (suc f) d h =
      Ends-if _ _ (test_bit (u8 (m.inb (port + line_stat_reg) d).0) 0)
        (m.inb (port + line_stat_reg) d).1 (λ y. ends (omega arith))
        (λ n.
          wait_serial_read-byte port f (m.inb (port + line_stat_reg) d).1 (ground (arith, h, n)))

  read_loop_lem :
      (port fuel n i : ℕ) (buf : Words) (d : D)
      → ((e : D) → arrives_within port fuel e ≡ true)
      → Ends (λ r d'. LineFrom i (i + n) buf r) (read_loop m fuel n i port buf d)
  unfolding read_loop LineFrom
  read_loop_lem port fuel zero i buf d h = ends (
    i,
    omega arith,
    λ j a b. absurd (omega (arith, a, b)),
    inr (
      refl,
      omega arith,
      ap (write buf i 0) (omega arith) ∙ write_same buf i 0,
      λ j o. write_other buf i 0 j (omega (arith, o)),
    ),
  )
  read_loop_lem port fuel (suc n) i buf d h =
      Ends-bind (wait_serial_read-byte port fuel d (h d)) (λ c d' b.
        Ends-if _ _ (ends_line c) d' (λ y. ends (line_here n i buf c y))
          (λ goes_on.
            Ends_weaken (read_loop_lem port fuel n (i + 1) (write buf i c) d' h)
              (λ r e l. line_later n i buf c r goes_on l)))

  -- `serial_read_buf` with room for a byte, on a device in which a byte always arrives within the fuel:
  -- it ends. With 0, the buffer has bytes that end no line, one that does and a NUL byte, all within
  -- `buf_len`; with 1 it has `buf_len - 1` bytes that end no line, and the NUL byte. Behind its
  -- `buf_len` bytes nothing is written.
  pub serial_read_buf_lem :
      (port fuel : ℕ) (buf : Words) (buf_len : ℕ) (d : D)
      → 0 < buf_len
      → buf_len < 2 ^ 32
      → ((e : D) → arrives_within port fuel e ≡ true)
      → (ret : ℕ) × (buf' : Words) × (d' : D) × (serial_read_buf m fuel port buf buf_len d
          ≡ some ((ret, buf'), d'))
        × LineFrom 0 (buf_len - 1) buf (ret, buf')
        × ((j : ℕ) → buf_len ≤ j → buf' j ≡ buf j)
  unfolding serial_read_buf
  serial_read_buf_lem port fuel buf buf_len d p w h =
      let rounds : sub32 buf_len 1 ≡ buf_len - 1 = omega (arith, p, w) in
      let last : 0 + (buf_len - 1) ≡ buf_len - 1 = omega arith in
      let (r, d', result, line) = Ends_inv (read_loop_lem port fuel (buf_len - 1) 0 buf d h) in
      let line' = subst (λ k. LineFrom 0 k buf r) last line in
      (
        r.0,
        r.1,
        d',
        ap (λ n. read_loop m fuel n 0 port buf d) rounds ∙ result,
        line',
        λ j b. behind buf_len buf r line' j b p,
      )
