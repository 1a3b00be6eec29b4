-- ===== src/LocalApic/Icr.antt =====
-- The command register: its loops end, and its words name the target and the vector.
use miniature.Base.{
  ℕ, zero, suc, ◌+◌, ◌/◌, ◌%◌, ◌≤◌, ◌<◌, ◌≡◌, refl, ap, true, false, ltb, done, arith,
}
use miniature.LocalApic.{Device, LocalApic, dword, is_pending, read, write, wait_idle, set_icr}

module _ {S : Type 0} (d : Device S) (base : ℕ) where
  -- The register 0x300 is read as pending so many times, then as idle; the last state is given.
  abbrev pub IdleAfter : ℕ → S → S → Type 0
  IdleAfter zero s t =
      let (v, s') = d.read_volatile s (base % dword + 0x300) in (is_pending v ≡ false) × (s' ≡ t)
  IdleAfter (suc k) s t =
      let (v, s') = d.read_volatile s (base % dword + 0x300) in
      (is_pending v ≡ true) × IdleAfter k s' t

  abbrev pub xapic : LocalApic
  xapic = record { base = base; x2 = false }

  fits : (n : ℕ) → base % dword + 0x400 ≤ dword → n < 0x400 → ltb (base % dword + n) dword ≡ true
  fits n room lt = ground arith

  read_there :
      (reg : ℕ)
      → base % dword + 0x400 ≤ dword
      → reg < 0x400
      → (s : S) → read d xapic reg s ≡ done (d.read_volatile s (base % dword + reg))
  unfolding read
  read_there reg room lt s = rw (fits reg room lt) refl

  write_there :
      (reg v : ℕ)
      → base % dword + 0x400 ≤ dword
      → reg < 0x400
      → (s : S) → write d xapic reg v s ≡ done (d.write_volatile s (base % dword + reg) v)
  unfolding write
  write_there reg v room lt s = rw (fits reg room lt) refl

  wait_idle-returns :
      (k fuel : ℕ) (s t : S)
      → base % dword + 0x400 ≤ dword
      → k < fuel
      → IdleAfter k s t
      → wait_idle d fuel xapic s ≡ done t
  unfolding wait_idle
  wait_idle-returns k zero s t room lt h = absurd (omega arith)
  wait_idle-returns zero (suc fuel) s t room lt (idle, last) =
      rw (read_there 0x300 room (omega arith) s, idle) (ap done last)
  wait_idle-returns (suc k) (suc fuel) s t room lt (pending, h) =
      rw (read_there 0x300 room (omega arith) s, pending)
        (wait_idle-returns k fuel _ t room (omega arith) h)

  -- In the memory-mapped mode: if the device is idle after a finite number of reads, before and after
  -- the two writes, and the fuel exceeds both numbers, then `set_icr` returns, and it has written the high half of the word before the low half.
  pub set_icr-returns :
      (fuel k l value : ℕ) (s t u : S)
      → base % dword + 0x400 ≤ dword
      → k < fuel
      → l < fuel
      → IdleAfter k s t
      → IdleAfter l
          (d.write_volatile
            (d.write_volatile t (base % dword + 0x310) (value / dword % dword))
            (base % dword + 0x300)
            (value % dword))
          u
      → set_icr d fuel xapic value s ≡ done u
  unfolding set_icr
  set_icr-returns fuel k l value s t u room lk ll before after =
      rw
        (
          wait_idle-returns k fuel s t room lk before,
          write_there 0x310 (value / dword % dword) room (omega arith) t,
          write_there 0x300 (value % dword) room (omega arith)
              (d.write_volatile t (base % dword + 0x310) (value / dword % dword)),
        )
        (wait_idle-returns l fuel _ u room ll after)
