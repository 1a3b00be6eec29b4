-- ===== src/Errors/Examples.antt =====
-- Results of system calls.
use miniature.Base.{ℕ, ◌-◌, ◌≡◌, refl, done, word, arith}
use miniature.Errors.{KResult, ok, err, mux, demux}
use miniature.Errors.Codes.{efault, number}
use miniature.Errors.Mux.{number_bounds, mux-injective}

abbrev bad_address : KResult
bad_address = err (record { errno = number efault })

mux_run : mux bad_address ≡ done (word - 14)
unfolding mux number
mux_run = refl

-- The error comes back as a value.
demux_run : demux (word - 14) ≡ ok (word - 14)
unfolding demux
demux_run = refl

mux-injective_example : ((a : ℕ) × (mux bad_address ≡ done a)) × (bad_address ≡ bad_address)
mux-injective_example =
    mux-injective 131 bad_address bad_address (omega arith) (number_bounds efault)
      (number_bounds efault) refl
