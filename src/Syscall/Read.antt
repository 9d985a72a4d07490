-- ===== src/Syscall/Read.antt =====
-- The words that `sys_read` writes.
use xanadu_os.Base.{
  ℕ, zero, suc, ◌+◌, ◌≡◌, ◌≢◌, ◌⊎◌, inl, inr, refl, ap, sym, ◌∙◌, ◌&&◌, arith, ltb, leb,
  if◌then◌else◌,
}
use xanadu_os.Base.Memory.{Words, write, write_same, write_other}
use xanadu_os.Syscall.{read_words, sys_read}

read_words-fills :
    (n i : ℕ) (kbd buf : Words) (k : ℕ)
    → read_words n i kbd buf k ≡ (if leb i k && ltb k (i + n) then kbd k else buf k)
unfolding read_words
read_words-fills zero i kbd buf k = ground arith
read_words-fills (suc n) i kbd buf k =
    let split : (i ≡ k) ⊎ (i ≢ k) = omega arith in
    read_words-fills n (i + 1) kbd (write buf i (kbd i)) k ∙ elim split [
      | inl e ↦
          let here : write buf i (kbd i) k ≡ kbd k =
            ap (write buf i (kbd i)) (sym e) ∙ write_same buf i (kbd i) ∙ ap kbd e in
          ground (arith, here, e)
      | inr n ↦ let here = write_other buf i (kbd i) k n in ground (arith, here, n)
    ]

-- `sys_read` puts into each of the first `count` words of the buffer, four times as many bytes, the
-- key that the keyboard has then; it changes no other word and returns `count`.
pub sys_read_lem :
    (kbd buf : Words) (count k : ℕ)
    → let (buf', ret) = sys_read kbd buf count in
      (buf' k ≡ (if ltb k count then kbd k else buf k)) × (ret ≡ count)
unfolding sys_read
sys_read_lem kbd buf count k = (read_words-fills count 0 kbd buf k ∙ ground arith, refl)
