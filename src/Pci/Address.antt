-- ===== src/Pci/Address.antt =====
-- The addresses of registers in the configuration space.
use Prim.Native.Nat.{bit_and, bit_or}
use xanadu_os.Base.{ℕ, ◌+◌, ◌*◌, ◌/◌, ◌%◌, ◌^◌, ◌<◌, ◌≡◌, ◌∙◌, ap, arith}
use xanadu_os.Base.Bits.{bit_and_low, bit_or-add, bit_and_disjoint, bit_and-shifted}
use xanadu_os.Base.Words.{u32}
use xanadu_os.Pci.{Config, config_address, pci_read_reg}

-- An `|` with a multiple of `2 ^ k` is a sum, if the other number has none of its digits.
or-sum : (k x q : ℕ) → x < 2 ^ 32 → bit_and (x / 2 ^ k) q ≡ 0 → bit_or x (q * 2 ^ k) ≡ x + q * 2 ^ k
or-sum k x q h e =
    let apart : bit_and x (q * 2 ^ k) ≡ 0 = bit_and-shifted k x q ∙ (rw e (omega arith)) in
    omega (arith, bit_or-add 32 x (q * 2 ^ k) h)

-- For registers of a configuration space of 256 bytes the parts of an address lie side by side: the
-- low four bits of the bus and of the device, and the low two of the function.
pub config_address_lem :
    (bus device function reg_offset : ℕ)
    → reg_offset < 2 ^ 8
    → config_address bus device function reg_offset
      ≡ 2 ^ 31 + bus % 16 * 2 ^ 16 + device % 16 * 2 ^ 11 + function % 4 * 2 ^ 8 + reg_offset
unfolding config_address
config_address_lem bus device function reg_offset h =
    let b = bus % 16 in
    let d = device % 16 in
    let f = function % 4 in
    let low : bit_and (2 ^ 31) reg_offset ≡ 0 = bit_and_disjoint 31 1 reg_offset (omega arith) in
    let x0 : bit_or (2 ^ 31) reg_offset ≡ 2 ^ 31 + reg_offset =
      omega (arith, bit_or-add 32 (2 ^ 31) reg_offset (omega arith), low) in
    let q1 : (2 ^ 31 + reg_offset) / 2 ^ 16 ≡ 2 ^ 15 = omega arith in
    let x1 : bit_or (2 ^ 31 + reg_offset) (b * 2 ^ 16) ≡ 2 ^ 31 + reg_offset + b * 2 ^ 16 =
      or-sum 16 (2 ^ 31 + reg_offset) b (omega arith)
        (rw q1 (bit_and_disjoint 15 1 b (omega arith))) in
    let q2 : (2 ^ 31 + reg_offset + b * 2 ^ 16) / 2 ^ 11 ≡ (2 ^ 15 + b) * 2 ^ 5 = omega arith in
    let x2 : bit_or (2 ^ 31 + reg_offset + b * 2 ^ 16) (d * 2 ^ 11)
        ≡ 2 ^ 31 + reg_offset + b * 2 ^ 16 + d * 2 ^ 11 =
      or-sum 11 (2 ^ 31 + reg_offset + b * 2 ^ 16) d (omega arith)
        (rw q2 (bit_and_disjoint 5 (2 ^ 15 + b) d (omega arith))) in
    let q3 : (2 ^ 31 + reg_offset + b * 2 ^ 16 + d * 2 ^ 11) / 2 ^ 8
        ≡ (2 ^ 20 + b * 2 ^ 5 + d) * 2 ^ 3 =
      omega arith in
    let x3 : bit_or (2 ^ 31 + reg_offset + b * 2 ^ 16 + d * 2 ^ 11) (f * 2 ^ 8)
        ≡ 2 ^ 31 + reg_offset + b * 2 ^ 16 + d * 2 ^ 11 + f * 2 ^ 8 =
      or-sum 8 (2 ^ 31 + reg_offset + b * 2 ^ 16 + d * 2 ^ 11) f (omega arith)
        (rw q3 (bit_and_disjoint 3 (2 ^ 20 + b * 2 ^ 5 + d) f (omega arith))) in
    let sb : u32 (b * 2 ^ 16) ≡ b * 2 ^ 16 = omega arith in
    let sd : u32 (d * 2 ^ 11) ≡ d * 2 ^ 11 = omega arith in
    let sf : u32 (f * 2 ^ 8) ≡ f * 2 ^ 8 = omega arith in
    rw (bit_and_low bus 4, bit_and_low device 4, bit_and_low function 2, sb, sd, sf, x0, x1, x2, x3)
      (omega arith)

-- Different devices among the first 16 of the first 16 buses have different registers.
pub config_address_injective :
    (bus device function reg_offset bus' device' function' reg_offset' : ℕ)
    → (reg_offset < 2 ^ 8) × (reg_offset' < 2 ^ 8)
    → (bus < 16) × (bus' < 16)
    → (device < 16) × (device' < 16)
    → (function < 4) × (function' < 4)
    → config_address bus device function reg_offset
      ≡ config_address bus' device' function' reg_offset'
    → (bus ≡ bus') × (device ≡ device') × (function ≡ function') × (reg_offset ≡ reg_offset')
config_address_injective bus device function reg bus' device' function' reg' r b d f e =
    let p = config_address_lem bus device function reg r.0 in
    let q = config_address_lem bus' device' function' reg' r.1 in
    (
      omega (arith, e, p, q, r.0, r.1, b.0, b.1, d.0, d.1, f.0, f.1),
      omega (arith, e, p, q, r.0, r.1, b.0, b.1, d.0, d.1, f.0, f.1),
      omega (arith, e, p, q, r.0, r.1, b.0, b.1, d.0, d.1, f.0, f.1),
      omega (arith, e, p, q, r.0, r.1, b.0, b.1, d.0, d.1, f.0, f.1),
    )

-- The fifth bit of a device's number and of a bus's are dropped: a read of device 16 to 31, or of
-- bus 16 and above, answers for the device with the number reduced by 16.
pub pci_read_reg-aliases :
    (config : Config) (bus device function reg_offset : ℕ)
    → reg_offset < 2 ^ 8
    → (pci_read_reg config bus (device + 16) function reg_offset
        ≡ pci_read_reg config bus device function reg_offset)
      × (pci_read_reg config (bus + 16) device function reg_offset
          ≡ pci_read_reg config bus device function reg_offset)
unfolding pci_read_reg
pci_read_reg-aliases config bus device function reg h =
    let p = config_address_lem bus device function reg h in
    let q = config_address_lem bus (device + 16) function reg h in
    let r = config_address_lem (bus + 16) device function reg h in
    (ap (λ t. u32 (config t)) (omega (arith, p, q)), ap (λ t. u32 (config t)) (omega (arith, p, r)))
