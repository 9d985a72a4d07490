-- ===== src/Base/Ports.antt =====
-- Port output. The writes of a program are a list, the newest first; what a device answers to a
-- read is a function of the writes before it and of the port.
use xanadu_os.Base.{ℕ, Option, none, some, List, [], ◌∷◌, ◌==◌, if◌then◌else◌}

pub record Out : Type 0 where
  pub port : ℕ
  pub value : ℕ

abbrev pub Device : Type 0
Device = List Out → ℕ → ℕ

abbrev pub outb : ℕ → ℕ → List Out → List Out
outb port value l = record { port = port; value = value } ∷ l

-- The value written to a port last.
unfoldable pub last_value : ℕ → List Out → Option ℕ
last_value port [] = none
last_value port (o ∷ l) =
    let before = last_value port l in if o.port == port then some (o.value) else before
