-- ===== src/Pci/Scan/Rounds.antt =====
-- How a loop of do_pci_scan goes on: with the next round, by `return`, or out of fuel.
use embed_template.Prelude.{Option, none, some}

pub data Flow (S : Type 0) : Type 0 where
  next : S → Flow S
  returned : S → Flow S
  stuck : Flow S

infixl 5 ◌>>=◌
abbrev pub ◌>>=◌ : {S : Type 0} → Flow S → (S → Flow S) → Flow S
next s >>= f = f s
returned s >>= f = returned s
stuck >>= f = stuck

-- The end of the function, whether by `return` or past its last line.
abbrev pub finish : {S : Type 0} → Flow S → Option S
finish (next s) = some s
finish (returned s) = some s
finish stuck = none

-- A call returns: the loop that made it goes on, also if it ended by `return`.
abbrev pub resume : {S : Type 0} → Option S → Flow S
resume none = stuck
resume (some s) = next s
