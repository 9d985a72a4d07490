-- ===== src/Pci.antt =====
-- ipc/pci.c, the configuration space of the PCI bus and its enumeration. What the bus answers to an
-- address is a function; what a write of the address does to it is a parameter. A device's
-- `dev_init` is a parameter too, which may change the configuration space.
pub mod Address
mod Tests
use Prim.Native.Nat.{bit_and, bit_or}
use xanadu_os.Base.{
  ℕ, zero, suc, ◌+◌, ◌-◌, ◌*◌, ◌/◌, ◌%◌, ◌^◌, Bool, not, Option, none, some, List, [], ◌∷◌, ◌==◌,
  if◌then◌else◌,
}
use xanadu_os.Base.Words.{u8, u16, u32}

abbrev pub Config : Type 0
Config = ℕ → ℕ

-- The address that both `pci_write_reg` and `pci_read_reg` write to CONFIG_ADDRESS.
pub config_address : (bus device function reg_offset : ℕ) → ℕ
config_address bus device function reg_offset =
    bit_or
      (bit_or (bit_or (bit_or (2 ^ 31) reg_offset) (u32 (bit_and bus 0xF * 2 ^ 16)))
        (u32 (bit_and device 0xF * 2 ^ 11)))
      (u32 (bit_and function 0x3 * 2 ^ 8))

abbrev pub Poke : Type 0
Poke = (address value : ℕ) → Config → Config

pub pci_write_reg : Poke → (bus device function reg_offset value : ℕ) → Config → Config
unfolding config_address
pci_write_reg poke bus device function reg_offset value config =
    poke (config_address bus device function reg_offset) value config

pub pci_read_reg : Config → (bus device function reg_offset : ℕ) → ℕ
unfolding config_address
pci_read_reg config bus device function reg_offset =
    u32 (config (config_address bus device function reg_offset))

pub pci_get_vendor_id : Config → (bus device_num : ℕ) → ℕ
unfolding pci_read_reg
pci_get_vendor_id config bus device_num = pci_read_reg config bus device_num 0 0 % 2 ^ 16

pub pci_get_device_id : Config → (bus device_num : ℕ) → ℕ
unfolding pci_read_reg
pci_get_device_id config bus device_num = pci_read_reg config bus device_num 0 0 / 2 ^ 16

-- `*header` and the result, which tells a device with several functions.
pub pci_get_header_type : Config → (bus dev : ℕ) → ℕ × ℕ
unfolding pci_read_reg
pci_get_header_type config bus dev =
    let header = pci_read_reg config bus dev 0 0xC / 2 ^ 16 % 2 ^ 8 in
    (header, bit_and (2 ^ 7) header)

pub pci_get_io_base : Config → (bus device_num header : ℕ) → ℕ
unfolding pci_read_reg
pci_get_io_base config bus device_num header =
    let io_base =
      if header == 0
      then pci_read_reg config bus device_num 0 0x10
      else if header == 1
      then pci_read_reg config bus device_num 0 0x10
      else if header == 2
      then pci_read_reg config bus device_num 0 0x2C
      else 0 in
    bit_and io_base (2 ^ 32 - 1 - 3)

pub pci_get_irq : Config → (bus device_num header_type : ℕ) → ℕ
unfolding pci_read_reg
pci_get_irq config bus device_num header_type =
    let irq = pci_read_reg config bus device_num 0 0x3C % 2 ^ 8 in
    if header_type == 0
    then irq
    else if header_type == 1
    then irq
    else if header_type == 2
    then irq
    else 0

-- `struct pci_dev_data`, with the registered number of the device that it stands in.
pub record PciDevData : Type 0 where
  pub device_id : ℕ
  pub bus : ℕ
  pub dev : ℕ
  pub irq : ℕ
  pub io_addr : ℕ

-- The configuration space, and the data of the calls of `dev_init`, the latest first.
pub record PciState : Type 0 where
  pub config : Config
  pub inits : List PciDevData

-- `struct pci_dev` without its `data`: the list `pci_devices` holds the numbers, newest first.
pub pci_register_dev : (device_id : ℕ) → List ℕ → List ℕ
pci_register_dev device_id pci_devices = device_id ∷ pci_devices

module _ (dev_init : PciDevData → Config → Config) where
  -- The loop over the registered devices.
  pub match_devices : List ℕ → (bus dev device_id header : ℕ) → PciState → PciState
  unfolding pci_get_io_base pci_get_irq
  match_devices [] bus dev device_id header s = s
  match_devices (d ∷ devices) bus dev device_id header s =
      let data' : PciDevData = record {
        device_id = d;
        bus = u8 bus;
        dev = u8 dev;
        irq = pci_get_irq s.config bus dev header;
        io_addr = u16 (pci_get_io_base s.config bus dev header);
      } in
      match_devices devices bus dev device_id header (
        if device_id == d
        then record { config = dev_init data' s.config; inits = data' ∷ s.inits }
        else s)

  -- `stale` is what the variable `header` holds when it is not written.
  pub visit_dev : List ℕ → (stale bus dev : ℕ) → PciState → PciState
  unfolding pci_read_reg match_devices pci_get_header_type
  visit_dev devices stale bus dev s =
      let val = pci_read_reg s.config bus dev 0 0 in
      let header =
        if val % 2 ^ 16 == 0xFFFF then stale else (pci_get_header_type s.config bus dev).0 in
      match_devices devices bus dev (val / 2 ^ 16) header s

  pub dev_loop : (rounds dev : ℕ) → List ℕ → (stale bus : ℕ) → PciState → PciState
  dev_loop zero dev devices stale bus s = s
  dev_loop (suc n) dev devices stale bus s =
      dev_loop n (dev + 1) devices stale bus (visit_dev devices stale bus dev s)

  pub scan_loop : (rounds bus : ℕ) → List ℕ → (stale : ℕ) → PciState → PciState
  scan_loop zero bus devices stale s = s
  scan_loop (suc n) bus devices stale s =
      scan_loop n (bus + 1) devices stale (dev_loop 16 0 devices stale bus s)

  pub pci_enumeration : List ℕ → (stale : ℕ) → Config → PciState
  unfolding dev_loop scan_loop visit_dev
  pci_enumeration devices stale config =
      scan_loop 16 0 devices stale (record { config = config; inits = [] })

-- `union bridge_bus_data` as its word.
abbrev pub bridge_data : (old primary_bus secondary_bus sub_bus_num : ℕ) → ℕ
bridge_data old primary_bus secondary_bus sub_bus_num =
    primary_bus + secondary_bus * 2 ^ 8 + sub_bus_num * 2 ^ 16 + old / 2 ^ 24 * 2 ^ 24

-- The devices of one bus from `dev` on, where `below` enumerates the bus behind a bridge.
pub bus_loop :
    (below : ℕ → Config → Option (Config × ℕ))
    → Poke
    → (rounds dev bus max_bus : ℕ) → Config
    → Option (Config × ℕ)
bus_loop below poke zero dev bus max_bus config = some (config, max_bus)
bus_loop below poke (suc n) dev bus max_bus config =
    let skip = bus_loop below poke n (dev + 1) bus max_bus config in
    if pci_get_vendor_id config bus dev == 0xFFFF
    then some (config, max_bus)
    else if (pci_get_header_type config bus dev).0 == 0
    then skip
    else let old = pci_read_reg config bus dev 0 0x18 in
      let next = u8 (max_bus + 1) in
      let config' = pci_write_reg poke bus dev 0 0x18 (bridge_data old bus next 0xFF) config in
      elim (below next config') [
        | none ↦ none
        | some (config'', sub) ↦
            bus_loop below poke n (dev + 1) bus next
              (pci_write_reg poke bus dev 0 0x18 (bridge_data old bus next sub) config'')
      ]

-- `none` is fuel run out: nothing in the source bounds the recursion.
pub pci_enumerate_bus : (fuel : ℕ) → Poke → (bus : ℕ) → Config → Option (Config × ℕ)
unfolding bus_loop
pci_enumerate_bus zero poke bus config = none
pci_enumerate_bus (suc f) poke bus config =
    bus_loop (pci_enumerate_bus f poke) poke 32 0 bus bus config
