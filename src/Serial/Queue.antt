-- ===== src/Serial/Queue.antt =====
-- The bytes that wait to be sent, as a list in their order, and what a write and an interrupt make of it.
use xanadu_os.Base.{
  ℕ, zero, suc, ◌+◌, ◌-◌, ◌^◌, ◌≤◌, ◌<◌, ◌≡◌, refl, ap, sym, ◌∙◌, arith, List, [], ◌∷◌, ◌++◌,
}
use xanadu_os.Base.Words.{u8, u32}
use xanadu_os.Base.Memory.{Words, write, write_same, write_other}
use xanadu_os.Slibc.{copy_in}
use xanadu_os.Serial.{Buffers, enqueue, sent_next, received}

-- The `n` bytes from index `i` on, as they go to the port.
unfoldable pub bytes : Words → (i n : ℕ) → List ℕ
bytes w i zero = []
bytes w i (suc n) = u8 (w i) ∷ bytes w (i + 1) n

pub but_first : List ℕ → List ℕ
but_first [] = []
but_first (x ∷ xs) = xs

unfoldable pub pending : Buffers → List ℕ
unfolding bytes
pending s = bytes s.write_buf s.cur_pos (s.write_pos - s.cur_pos)

pub bytes-append : (w : Words) (i n k : ℕ) → bytes w i (n + k) ≡ bytes w i n ++ bytes w (i + n) k
unfolding bytes
bytes-append w i zero k =
    let index : i ≡ i + 0 = omega arith in
    let amount : 0 + k ≡ k = omega arith in ap (bytes w i) amount ∙ ap (λ j. bytes w j k) index
bytes-append w i (suc n) k =
    let amount : suc n + k ≡ suc (n + k) = omega arith in
    let index : i + 1 + n ≡ i + suc n = omega arith in
    ap (bytes w i) amount
    ∙ ap (λ r. u8 (w i) ∷ r)
        (bytes-append w (i + 1) n k ∙ ap (λ j. bytes w (i + 1) n ++ bytes w j k) index)

pub bytes_agree :
    (v w : Words) (i n : ℕ) → ((j : ℕ) → i ≤ j → j < i + n → v j ≡ w j) → bytes v i n ≡ bytes w i n
unfolding bytes
bytes_agree v w i zero h = refl
bytes_agree v w i (suc n) h =
    ap (λ c. u8 c ∷ bytes v (i + 1) n) (h i (omega arith) (omega arith))
    ∙ ap (λ r. u8 (w i) ∷ r)
        (bytes_agree v w (i + 1) n (λ j a b. h j (omega (arith, a)) (omega (arith, b))))

copy_in-before :
    (n i : ℕ) (dest : Words) (pos : ℕ) (buf : Words) (j : ℕ)
    → j < pos + i
    → copy_in n i dest pos buf j ≡ dest j
unfolding copy_in
copy_in-before zero i dest pos buf j h = refl
copy_in-before (suc n) i dest pos buf j h =
    copy_in-before n (i + 1) (write dest (pos + i) (buf i)) pos buf j (omega (arith, h))
    ∙ write_other dest (pos + i) (buf i) j (omega (arith, h))

bytes-copy_in :
    (n i : ℕ) (dest : Words) (pos : ℕ) (buf : Words)
    → bytes (copy_in n i dest pos buf) (pos + i) n ≡ bytes buf i n
unfolding bytes copy_in
bytes-copy_in zero i dest pos buf = refl
bytes-copy_in (suc n) i dest pos buf =
    let dest' = write dest (pos + i) (buf i) in
    let index : pos + i + 1 ≡ pos + (i + 1) = omega arith in
    ap (λ c. u8 c ∷ bytes (copy_in n (i + 1) dest' pos buf) (pos + i + 1) n)
      (copy_in-before n (i + 1) dest' pos buf (pos + i) (omega arith)
        ∙ write_same dest (pos + i) (buf i))
    ∙ ap (λ r. u8 (buf i) ∷ r)
        (ap (λ k. bytes (copy_in n (i + 1) dest' pos buf) k n) index
          ∙ bytes-copy_in n (i + 1) dest' pos buf)

but_first-bytes : (w : Words) (i n : ℕ) → bytes w (i + 1) n ≡ but_first (bytes w i (suc n))
unfolding bytes but_first
but_first-bytes w i n = refl

-- The queue takes the bytes in at its end, and drops its first byte.
pub pending-enqueue :
    (buf : Words) (len : ℕ) (s : Buffers)
    → s.cur_pos ≤ s.write_pos
    → s.write_pos + len < 2 ^ 32
    → 0 < len
    → pending (enqueue buf len s) ≡ but_first (pending s ++ bytes buf 0 len)
unfolding pending enqueue
pending-enqueue buf len s o r l =
    let n = s.write_pos - s.cur_pos in
    let w = copy_in len 0 s.write_buf s.write_pos buf in
    let cur : u32 (s.cur_pos + 1) ≡ s.cur_pos + 1 = omega (arith, o, r, l) in
    let more : u32 (s.write_pos + len) - (s.cur_pos + 1) ≡ n + len - 1 = omega (arith, o, r, l) in
    let old : bytes w s.cur_pos n ≡ bytes s.write_buf s.cur_pos n =
      bytes_agree w s.write_buf s.cur_pos n
        (λ j a b. copy_in-before len 0 s.write_buf s.write_pos buf j (omega (arith, b, o))) in
    let here : s.cur_pos + n ≡ s.write_pos + 0 = omega (arith, o) in
    let amount : suc (n + len - 1) ≡ n + len = omega (arith, l) in
    let new : bytes w (s.cur_pos + n) len ≡ bytes buf 0 len =
      ap (λ k. bytes w k len) here ∙ bytes-copy_in len 0 s.write_buf s.write_pos buf in
    ap (λ c. bytes w c (u32 (s.write_pos + len) - c)) cur
    ∙ ap (bytes w (s.cur_pos + 1)) more
    ∙ but_first-bytes w s.cur_pos (n + len - 1)
    ∙ ap (λ k. but_first (bytes w s.cur_pos k)) amount
    ∙ ap but_first (
        bytes-append w s.cur_pos n len
        ∙ ap (λ r. r ++ bytes w (s.cur_pos + n) len) old
        ∙ ap (λ r. bytes s.write_buf s.cur_pos n ++ r) new)

-- A byte is pending: the first one is that at `cur_pos`.
pub pending_some :
    (s : Buffers)
    → s.cur_pos < s.write_pos
    → s.write_pos < 2 ^ 32
    → pending s ≡ u8 (s.write_buf s.cur_pos) ∷ pending (sent_next s)
unfolding pending bytes
pending_some s h b =
    let next : u32 (s.cur_pos + 1) ≡ s.cur_pos + 1 = omega (arith, h, b) in
    let amount : s.write_pos - s.cur_pos ≡ suc (s.write_pos - (s.cur_pos + 1)) = omega (arith, h) in
    ap (bytes s.write_buf s.cur_pos) amount
    ∙ ap (λ c. u8 (s.write_buf s.cur_pos) ∷ bytes s.write_buf c (s.write_pos - c)) (sym next)

pub pending-received : (c : ℕ) (s : Buffers) → pending (received c s) ≡ pending s
unfolding pending
pending-received c s = refl

-- The buffers hold nothing to send.
pub pending_none : (s : Buffers) → s.cur_pos ≡ s.write_pos → pending s ≡ []
unfolding pending bytes
pending_none s h =
    let amount : s.write_pos - s.cur_pos ≡ 0 = omega (arith, h) in
    ap (bytes s.write_buf s.cur_pos) amount

pub first-bytes : (w : Words) (i n : ℕ) → 0 < n → u8 (w i) ∷ but_first (bytes w i n) ≡ bytes w i n
unfolding bytes but_first
first-bytes w i zero h = absurd (omega (arith, h))
first-bytes w i (suc n) h = refl

pub enqueue_positions :
    (buf : Words) (len : ℕ) (s : Buffers)
    → s.cur_pos ≤ s.write_pos
    → s.write_pos + len < 2 ^ 32
    → 0 < len
    → ((enqueue buf len s).cur_pos ≡ s.cur_pos + 1)
      × ((enqueue buf len s).write_pos ≡ s.write_pos + len)
unfolding enqueue
enqueue_positions buf len s o b l = (omega (arith, o, b, l), omega (arith, b))
