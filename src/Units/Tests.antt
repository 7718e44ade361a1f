-- ===== src/Units/Tests.antt =====
-- Lengths on a device with 24 basic units to the device unit, as of a terminal.
use groff.Prelude.{◌≡◌, some, arith, ℤ, negsuc}
use groff.Units.{from_units, to_units}
use groff.Units.Rounding.{to_units-from_units, IsWithin}

to_units-from_units_example :
    (q : ℤ) × (from_units 24 (negsuc 99) ≡ some q) × IsWithin 12 (to_units 24 q) (negsuc 99)
to_units-from_units_example = to_units-from_units 24 (negsuc 99) (ground arith) (ground arith)
