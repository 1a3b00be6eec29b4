-- ===== src/IoApic/Examples.antt =====
-- A machine with one I/O APIC, on which the timer's interrupt 0 takes input 2.
use miniature.Base.{◌≡◌, ◌≢◌, refl, List, [], ◌∷◌, none, some, done, arith}
use miniature.IoApic.{
  IoApic, Override, Gsi, RegWrite, TriggerMode, Polarity, find_override, any_override, gsi_of,
  src_overrides, map_all,
}
use miniature.IoApic.Routes.{gsi_of-apart, MapsFrom, map_all-MapsFrom}

abbrev overrides : List Override
overrides =
    record {
      bus_irq = 0;
      gsi = 2;
      trigger_mode = TriggerMode.conforms_to_specs;
      polarity = Polarity.conforms_to_specs;
    }
    ∷ record {
      bus_irq = 9;
      gsi = 2;
      trigger_mode = TriggerMode.level;
      polarity = Polarity.active_high;
    }
    ∷ []

abbrev ias : List IoApic
ias = record { base = 0xfec00000; gsi_base = 0; count = 23 } ∷ []

abbrev timer_gsi : Gsi
timer_gsi = record {
  gsi = 2;
  trigger_mode = TriggerMode.conforms_to_specs;
  polarity = Polarity.conforms_to_specs;
}

abbrev acpi_gsi : Gsi
acpi_gsi = record { gsi = 2; trigger_mode = TriggerMode.level; polarity = Polarity.active_high }

src_overrides_run :
    src_overrides (
      record { bus_source = 0; irq_source = 0; gsi = 2; flags = 0 }
      ∷ record { bus_source = 0; irq_source = 5; gsi = 5; flags = 2 }
      ∷ record { bus_source = 0; irq_source = 9; gsi = 2; flags = 13 }
      ∷ [])
    ≡ overrides
unfolding src_overrides
src_overrides_run = refl

timer_run : gsi_of overrides 0 ≡ some timer_gsi
unfolding gsi_of find_override
timer_run = refl

acpi_run : gsi_of overrides 9 ≡ some acpi_gsi
unfolding gsi_of find_override
acpi_run = refl

-- Interrupt 2 is shut out.
conflict_run : gsi_of overrides 2 ≡ none
unfolding gsi_of find_override any_override
conflict_run = refl

gsi_of-apart_example : (find_override overrides 0 ≢ none) × (find_override overrides 9 ≢ none)
gsi_of-apart_example = gsi_of-apart overrides 0 9 (λ e. omega (arith, e)) timer_run acpi_run refl

map_all-MapsFrom_example :
    (ws : List RegWrite) × (map_all ias overrides 0 16 ≡ done ws) × MapsFrom ias overrides 0 16 0 ws
map_all-MapsFrom_example =
    map_all-MapsFrom ias overrides 0 16 0 ((omega arith, omega arith), tt) refl
