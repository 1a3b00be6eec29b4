-- ===== src/Errors.antt =====
-- `KError` of libvdso/src/error.rs: how the result of a system call is passed in one register.
pub mod Codes
pub mod Mux
mod Examples
use miniature.Base.{
  ℕ, ◌+◌, ◌-◌, ◌%◌, ◌^◌, not, ltb, ◌==◌, if◌then◌else◌, Outcome, done, ◌>>=◌, ◌>>◌, assert,
}

-- Any number of 32 bits; a negative `i32` is at or above 2 ^ 31.
pub record KError : Type 0 where
  pub errno : ℕ

-- `KResult<usize>`
pub data KResult : Type 0 where
  ok : ℕ → KResult
  err : KError → KResult

-- `-errno`, which has no result for the least `i32`.
abbrev pub negated : ℕ → Outcome ℕ
negated errno = assert (not (errno == 2 ^ 31)) >> done ((2 ^ 32 - errno) % 2 ^ 32)

-- `as usize` extends the sign.
abbrev pub as_usize : ℕ → ℕ
as_usize v = if ltb v (2 ^ 31) then v else v + (2 ^ 64 - 2 ^ 32)

unfoldable pub mux : KResult → Outcome ℕ
mux (ok value) = done value
mux (err e) = negated e.errno >>= λ v. done (as_usize v)

pub demux : ℕ → KResult
demux value = ok value
