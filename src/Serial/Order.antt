-- ===== src/Serial/Order.antt =====
-- The order in which bytes leave the port, on a device that records what its data register is given.
use xanadu_os.Base.{
  ℕ, zero, suc, ◌+◌, ◌-◌, ◌^◌, ◌≤◌, ◌<◌, ◌≡◌, ap, sym, ◌∙◌, Bool, true, false, ◌&&◌, not, arith,
  some, ◌==◌, if◌then◌else◌, List, [], ◌∷◌, ◌++◌,
}
use mathlib.Core.Path.{subst}
use mathlib.Core.List.{append_assoc, append-nil}
use xanadu_os.Base.Words.{u8, u32, test_bit}
use xanadu_os.Base.Memory.{Words}
use xanadu_os.Base.Device.{
  Machine, Io, pure, bind, Ends, ends, Ends-bind, Ends-if, Ends_inv, Ends_weaken, ◌>>=◌,
}
use xanadu_os.Serial.{
  Buffers, enqueue, sent_next, receive, serial_interrupt, wait_serial_send, serial_write,
  line_stat_reg, data_reg, com1,
}
use xanadu_os.Serial.Queue.{
  bytes, but_first, pending, pending_some, pending-received, pending_none, pending-enqueue,
  first-bytes, enqueue_positions,
}

-- What the data register of the first port has been given, in order.
pub record Recorder {ℓ} {D : Type ℓ} (m : Machine D) : Type ℓ where
  pub sent : D → List ℕ
  pub sent-outb : (v : ℕ) (d : D) → sent (m.outb (com1 + data_reg) v d) ≡ sent d ++ (v ∷ [])
  pub sent-inb : (port : ℕ) (d : D) → sent (m.inb port d).1 ≡ sent d

module _ {ℓ} {D : Type ℓ} (m : Machine D) where
  abbrev pub shows_free : D → Bool
  shows_free d = test_bit (u8 (m.inb (com1 + line_stat_reg) d).0) 5

  -- One of the next `n` reads of the status shows a free transmitter.
  pub frees_within : (n : ℕ) → D → Bool
  frees_within zero d = false
  frees_within (suc n) d =
      let later = frees_within n (m.inb (com1 + line_stat_reg) d).1 in
      if shows_free d then true else later

  pub always_free :
      (n : ℕ) (d : D) → 0 < n → ((e : D) → shows_free e ≡ true) → frees_within n d ≡ true
  unfolding frees_within
  always_free zero d p h = absurd (omega (arith, p))
  always_free (suc n) d p h = ground (arith, h d)

  pub interrupts : (n : ℕ) → Buffers → Io D Buffers
  unfolding serial_interrupt
  interrupts zero s = pure s
  interrupts (suc n) s = do s' ← serial_interrupt m s; interrupts n s'

module _ {ℓ} {D : Type ℓ} (m : Machine D) (r : Recorder m) where
  -- Nothing is lost, doubled or reordered: what was sent and what is pending make up `total`, and at
  -- most `k` bytes are pending.
  unfoldable pub Queued : (total : List ℕ) (k : ℕ) → Buffers → D → Type 0
  Queued total k s d =
      (r.sent d ++ pending s ≡ total)
      × (s.cur_pos ≤ s.write_pos)
      × (s.write_pos < 2 ^ 32)
      × (s.write_pos - s.cur_pos ≤ k)

  receive-Queued :
      (total : List ℕ) (k : ℕ) (s : Buffers) (d : D)
      → Queued total k s d
      → Ends (Queued total k) (receive m s d)
  unfolding Queued
  receive-Queued total k s d q =
      let d1 = (m.inb (com1 + line_stat_reg) d).1 in
      let status : r.sent d1 ≡ r.sent d = r.sent-inb (com1 + line_stat_reg) d in
      Ends-if _ _ (test_bit (u8 (m.inb (com1 + line_stat_reg) d).0) 0) d1
        (λ y.
          let c = u8 (m.inb (com1 + data_reg) d1).0 in
          ends (
            ap (λ p. r.sent (m.inb (com1 + data_reg) d1).1 ++ p) (pending-received c s)
                ∙ ap (λ t. t ++ pending s) (r.sent-inb (com1 + data_reg) d1 ∙ status)
                ∙ q.0,
            q.1,
            q.2,
            q.3,
          ))
        (λ n. ends (ap (λ t. t ++ pending s) status ∙ q.0, q.1, q.2, q.3))

  pub interrupt_step :
      (total : List ℕ) (k : ℕ) (s : Buffers) (d : D)
      → Queued total k s d
      → Ends (Queued total (if shows_free m d then k - 1 else k)) (serial_interrupt m s d)
  unfolding Queued serial_interrupt
  interrupt_step total k s d q =
      let d1 = (m.inb (com1 + line_stat_reg) d).1 in
      let status : r.sent d1 ≡ r.sent d = r.sent-inb (com1 + line_stat_reg) d in
      let k' = if shows_free m d then k - 1 else k in
      let x = u8 (s.write_buf s.cur_pos) in
      Ends-if _ _ (shows_free m d && not (s.cur_pos == s.write_pos)) d1
        (λ y.
          let some_pending : s.cur_pos < s.write_pos = ground (arith, y, q) in
          let cur : u32 (s.cur_pos + 1) ≡ s.cur_pos + 1 = omega (arith, some_pending, q) in
          let d2 = m.outb (com1 + data_reg) x d1 in
          let all : r.sent d2 ++ pending (sent_next s) ≡ total =
            ap (λ t. t ++ pending (sent_next s)) (r.sent-outb x d1 ∙ ap (λ t. t ++ (x ∷ [])) status)
            ∙ append_assoc (r.sent d) (x ∷ []) (pending (sent_next s))
            ∙ ap (λ p. r.sent d ++ p) (sym (pending_some s some_pending q.2))
            ∙ q.0 in
          receive-Queued total k' (sent_next s) d2
            (all, omega (arith, cur, some_pending), q.2, ground (arith, cur, q)))
        (λ n.
          receive-Queued total k' s d1
            (ap (λ t. t ++ pending s) status ∙ q.0, q.1, q.2, ground (arith, n, q)))

  wait_serial_send_lem :
      (fuel c : ℕ) (d : D)
      → frees_within m fuel d ≡ true
      → Ends (λ ret d'. r.sent d' ≡ r.sent d ++ (u8 c ∷ [])) (wait_serial_send m fuel com1 c d)
  unfolding wait_serial_send frees_within
  wait_serial_send_lem zero c d h = absurd (ground (arith, h))
  wait_serial_send_lem (suc f) c d h =
      let d1 = (m.inb (com1 + line_stat_reg) d).1 in
      let status : r.sent d1 ≡ r.sent d = r.sent-inb (com1 + line_stat_reg) d in
      Ends-if _ _ (shows_free m d) d1
        (λ y. ends (r.sent-outb (u8 c) d1 ∙ ap (λ t. t ++ (u8 c ∷ [])) status))
        (λ n.
          Ends_weaken (wait_serial_send_lem f c d1 (ground (arith, h, n)))
            (λ a d' e. e ∙ ap (λ t. t ++ (u8 c ∷ [])) status))

  -- `serial_write` to an empty queue, on a device that shows a free transmitter within the fuel: it
  -- ends, and the bytes of the buffer make up what is sent since and what is pending.
  pub serial_write-Queued :
      (fuel : ℕ) (buf : Words) (len : ℕ) (s : Buffers) (d : D)
      → s.cur_pos ≡ s.write_pos
      → s.write_pos + len < 2 ^ 32
      → 0 < len
      → frees_within m fuel d ≡ true
      → Ends (Queued (r.sent d ++ bytes buf 0 len) len) (serial_write m fuel com1 buf len s d)
  unfolding Queued serial_write
  serial_write-Queued fuel buf len s d e b l f =
      let left : pending (enqueue buf len s) ≡ but_first (bytes buf 0 len) =
        pending-enqueue buf len s (omega (arith, e)) b l
        ∙ ap (λ p. but_first (p ++ bytes buf 0 len)) (pending_none s e) in
      let positions = enqueue_positions buf len s (omega (arith, e)) b l in
      let x = u8 (buf 0) in
      Ends-bind (wait_serial_send_lem fuel (buf 0) d f) (λ a d' sent. ends (
        ap (λ t. t ++ pending (enqueue buf len s)) sent
            ∙ append_assoc (r.sent d) (x ∷ []) (pending (enqueue buf len s))
            ∙ ap (λ p. r.sent d ++ (x ∷ p)) left
            ∙ ap (λ p. r.sent d ++ p) (first-bytes buf 0 len l),
        omega (arith, positions, e, l),
        omega (arith, positions, b),
        omega (arith, positions, e),
      ))

  -- Interrupts keep the order; on a device whose transmitter is free at each of them, `k` interrupts
  -- send `k` pending bytes.
  interrupts-Queued :
      (total : List ℕ) (n k : ℕ) (s : Buffers) (d : D)
      → ((e : D) → shows_free m e ≡ true)
      → Queued total k s d
      → Ends (Queued total (k - n)) (interrupts m n s d)
  unfolding interrupts
  interrupts-Queued total zero k s d h q =
      let all : k ≡ k - 0 = omega arith in
      subst (λ j. Ends (Queued total j) (interrupts m 0 s d)) all (ends q)
  interrupts-Queued total (suc n) k s d h q = Ends-bind (interrupt_step total k s d q) (λ s' d' q'.
      let fewer : (if shows_free m d then k - 1 else k) ≡ k - 1 = ground (arith, h d) in
      let enough : k - 1 - n ≡ k - suc n = omega arith in
      subst (λ j. Ends (Queued total j) (interrupts m n s' d')) enough
        (interrupts-Queued total n (k - 1) s' d' h (subst (λ j. Queued total j s' d') fewer q')))

  -- A buffer written to an empty queue, on a device whose transmitter is always free, is sent by the
  -- interrupts that follow: after as many as it has bytes, exactly its bytes have been sent since the
  -- write began, in their order.
  pub serial_write_lem :
      (fuel : ℕ) (buf : Words) (len : ℕ) (s : Buffers) (d : D)
      → s.cur_pos ≡ s.write_pos
      → s.write_pos + len < 2 ^ 32
      → 0 < len
      → 0 < fuel
      → ((e : D) → shows_free m e ≡ true)
      → (s' : Buffers) × (d' : D) × (bind (serial_write m fuel com1 buf len s d) (interrupts m len)
          ≡ some (s', d'))
        × (r.sent d' ≡ r.sent d ++ bytes buf 0 len)
  unfolding Queued
  serial_write_lem fuel buf len s d e b l f h =
      let total = r.sent d ++ bytes buf 0 len in
      let (s', d', result, q) = Ends_inv (
        Ends-bind (serial_write-Queued fuel buf len s d e b l (always_free m fuel d f h))
          (λ s1 d1 q1. interrupts-Queued total len len s1 d1 h q1)) in
      let nothing : pending s' ≡ [] = pending_none s' (omega (arith, q)) in
      (s', d', result, sym (append-nil (r.sent d')) ∙ ap (λ p. r.sent d' ++ p) (sym nothing) ∙ q.0)

  -- The interrupt, whatever the device shows, loses, doubles and reorders nothing: where the bytes
  -- sent and those pending make up a list, they still do; and it sends a byte when the transmitter is
  -- free and a byte is pending.
  pub serial_interrupt_lem :
      (total : List ℕ) (k : ℕ) (s : Buffers) (d : D)
      → Queued total k s d
      → (s' : Buffers) × (d' : D) × (serial_interrupt m s d ≡ some (s', d'))
        × Queued total (if shows_free m d then k - 1 else k) s' d'
  serial_interrupt_lem total k s d q = Ends_inv (interrupt_step total k s d q)
