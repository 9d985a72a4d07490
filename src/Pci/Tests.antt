-- ===== src/Pci/Tests.antt =====
-- The configuration space at concrete addresses.
use xanadu_os.Base.{ℕ, ◌+◌, ◌*◌, ◌%◌, ◌^◌, ◌≡◌, refl, [], ◌∷◌, arith, ◌==◌, if◌then◌else◌}
use xanadu_os.Pci.{
  Config, config_address, pci_read_reg, pci_enumeration, pci_get_io_base, pci_get_irq,
  match_devices, visit_dev,
}
use xanadu_os.Pci.Address.{config_address_lem, pci_read_reg-aliases}

config_address_lem_example :
    config_address 1 19 5 0x18 ≡ 2 ^ 31 + 1 % 16 * 2 ^ 16 + 19 % 16 * 2 ^ 11 + 5 % 4 * 2 ^ 8 + 0x18
config_address_lem_example = config_address_lem 1 19 5 0x18 (omega arith)

abbrev bus_one : ℕ
bus_one = 1

abbrev device_three : ℕ
device_three = 3

abbrev function_none : ℕ
function_none = 0

abbrev base_register : ℕ
base_register = 0x10

-- A network card as device 3 of bus 0, and nothing else.
abbrev one_card : Config
one_card = λ a.
    if a == 0x80001800
    then 0x813910EC
    else if a == 0x8000180C
    then 0
    else if a == 0x80001810
    then 0xC001
    else if a == 0x8000183C
    then 0x10B
    else 0xFFFFFFFF

pci_read_reg-aliases_example :
    (pci_read_reg one_card 0 (3 + 16) 0 0 ≡ pci_read_reg one_card 0 3 0 0)
    × (pci_read_reg one_card (0 + 16) 3 0 0 ≡ pci_read_reg one_card 0 3 0 0)
pci_read_reg-aliases_example = pci_read_reg-aliases one_card 0 3 0 0 (omega arith)

-- The card is initialised once, with its port and its interrupt line.
card_is_initialised :
    (pci_enumeration (λ d c. c) (0x8139 ∷ []) 7 one_card).inits
    ≡ record { device_id = 0x8139; bus = 0; dev = 3; irq = 0xB; io_addr = 0xC000 } ∷ []
unfolding pci_enumeration match_devices visit_dev pci_get_io_base pci_get_irq
card_is_initialised = refl
