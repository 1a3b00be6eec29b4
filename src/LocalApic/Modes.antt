-- ===== src/LocalApic/Modes.antt =====
-- The two ways to reach the registers do the same.
use miniature.Base.{
  ℕ, ◌+◌, ◌*◌, ◌%◌, ◌≤◌, ◌<◌, ◌≡◌, ap, ◌∙◌, Bool, true, false, ltb, Outcome, done, ◌>>=◌, arith,
}
use miniature.LocalApic.{
  Device, LocalApic, dword, read, write, rdmsr_u32, id, version, eoi, esr, lvt_timer, set_lvt_timer,
  init_count, set_init_count, cur_count, div_conf, set_div_conf, lvt_error, set_lvt_error,
}

-- The registers that the manual numbers; register `n` is at 16 bytes times `n` in memory, and the
-- model-specific register 0x800 + `n`.
pub record Registers (S : Type 0) : Type 0 where
  pub get : S → ℕ → ℕ × S
  pub set : S → ℕ → ℕ → S

-- What is documented of one of the modes; the flag is `x2`.
abbrev pub Speaks : {S : Type 0} → Device S → Registers S → ℕ → Bool → Type 0
Speaks {S} d r base true =
    ((s : S) (reg : ℕ) → rdmsr_u32 d (0x800 + reg) s ≡ done (r.get s reg))
    × ((s : S) (reg v : ℕ) → d.wrmsr s (0x800 + reg) v ≡ r.set s reg v)
Speaks {S} d r base false =
    (base % dword + 0x400 ≤ dword)
    × ((s : S) (reg : ℕ) → d.read_volatile s (base % dword + 16 * reg) ≡ r.get s reg)
    × ((s : S) (reg v : ℕ) → d.write_volatile s (base % dword + 16 * reg) v ≡ r.set s reg v)

-- The operations of a driver.
pub record ApicOps (S : Type 0) : Type 0 where
  pub id : S → Outcome (ℕ × S)
  pub version : S → Outcome (ℕ × S)
  pub eoi : S → Outcome S
  pub esr : S → Outcome (ℕ × S)
  pub lvt_timer : S → Outcome (ℕ × S)
  pub set_lvt_timer : ℕ → S → Outcome S
  pub init_count : S → Outcome (ℕ × S)
  pub set_init_count : ℕ → S → Outcome S
  pub cur_count : S → Outcome (ℕ × S)
  pub div_conf : S → Outcome (ℕ × S)
  pub set_div_conf : ℕ → S → Outcome S
  pub lvt_error : S → Outcome (ℕ × S)
  pub set_lvt_error : ℕ → S → Outcome S

module _ {S : Type 0} where
  abbrev pub driver : Device S → LocalApic → ApicOps S
  driver d a = record {
    id = id d a;
    version = version d a;
    eoi = eoi d a;
    esr = esr d a;
    lvt_timer = lvt_timer d a;
    set_lvt_timer = set_lvt_timer d a;
    init_count = init_count d a;
    set_init_count = set_init_count d a;
    cur_count = cur_count d a;
    div_conf = div_conf d a;
    set_div_conf = set_div_conf d a;
    lvt_error = lvt_error d a;
    set_lvt_error = set_lvt_error d a;
  }

  -- The registers by their numbers in the manual.
  abbrev pub manual : Registers S → ApicOps S
  manual r = record {
    id = λ s. done (r.get s 0x02);
    version = λ s. done (r.get s 0x03);
    eoi = λ s. done (r.set s 0x0B 0);
    esr = λ s. done (r.get (r.set s 0x28 0) 0x28);
    lvt_timer = λ s. done (r.get s 0x32);
    set_lvt_timer = λ v s. done (r.set s 0x32 v);
    init_count = λ s. done (r.get s 0x38);
    set_init_count = λ v s. done (r.set s 0x38 v);
    cur_count = λ s. done (r.get s 0x39);
    div_conf = λ s. done (r.get s 0x3E);
    set_div_conf = λ v s. done (r.set s 0x3E v);
    lvt_error = λ s. done (r.get s 0x37);
    set_lvt_error = λ v s. done (r.set s 0x37 v);
  }

  pub record Refines (impl spec : ApicOps S) : Type 0 where
    pub id : (s : S) → impl.id s ≡ spec.id s
    pub version : (s : S) → impl.version s ≡ spec.version s
    pub eoi : (s : S) → impl.eoi s ≡ spec.eoi s
    pub esr : (s : S) → impl.esr s ≡ spec.esr s
    pub lvt_timer : (s : S) → impl.lvt_timer s ≡ spec.lvt_timer s
    pub set_lvt_timer : (v : ℕ) (s : S) → impl.set_lvt_timer v s ≡ spec.set_lvt_timer v s
    pub init_count : (s : S) → impl.init_count s ≡ spec.init_count s
    pub set_init_count : (v : ℕ) (s : S) → impl.set_init_count v s ≡ spec.set_init_count v s
    pub cur_count : (s : S) → impl.cur_count s ≡ spec.cur_count s
    pub div_conf : (s : S) → impl.div_conf s ≡ spec.div_conf s
    pub set_div_conf : (v : ℕ) (s : S) → impl.set_div_conf v s ≡ spec.set_div_conf v s
    pub lvt_error : (s : S) → impl.lvt_error s ≡ spec.lvt_error s
    pub set_lvt_error : (v : ℕ) (s : S) → impl.set_lvt_error v s ≡ spec.set_lvt_error v s

  module _ (d : Device S) (r : Registers S) (base : ℕ) where
    pub read-get :
        (x2 : Bool) (reg : ℕ)
        → Speaks d r base false
        → reg < 64
        → (s : S) → read d (record { base = base; x2 = x2 }) (16 * reg) s ≡ done (r.get s reg)
    unfolding read
    read-get x2 reg (room, get, set) lt s =
        rw (fits (16 * reg) (omega (arith, room))) (ap done (get s reg))
      where
        fits : (n : ℕ) → base % dword + n < dword → ltb (base % dword + n) dword ≡ true
        fits n h = ground arith

    pub write-set :
        (x2 : Bool) (reg v : ℕ)
        → Speaks d r base false
        → reg < 64
        → (s : S) → write d (record { base = base; x2 = x2 }) (16 * reg) v s ≡ done (r.set s reg v)
    unfolding write
    write-set x2 reg v (room, get, set) lt s =
        rw (fits (16 * reg) (omega (arith, room))) (ap done (set s reg v))
      where
        fits : (n : ℕ) → base % dword + n < dword → ltb (base % dword + n) dword ≡ true
        fits n h = ground arith

    -- In both modes, on a device that does what is documented of the mode: each operation returns and
    -- does what the manual's register of its name does; the error status is written before it is read.
    pub driver-Refines :
        (x2 : Bool)
        → Speaks d r base x2
        → Refines (driver d (record { base = base; x2 = x2 })) (manual r)
    unfolding id version eoi esr lvt_timer set_lvt_timer init_count set_init_count cur_count
        div_conf set_div_conf lvt_error set_lvt_error
    driver-Refines true (get, set) = record {
      id = λ s. get s 0x02;
      version = λ s. get s 0x03;
      eoi = λ s. ap done (set s 0x0B 0);
      esr = λ s. get (d.wrmsr s 0x828 0) 0x28 ∙ ap (λ t. done (r.get t 0x28)) (set s 0x28 0);
      lvt_timer = λ s. get s 0x32;
      set_lvt_timer = λ v s. ap done (set s 0x32 v);
      init_count = λ s. get s 0x38;
      set_init_count = λ v s. ap done (set s 0x38 v);
      cur_count = λ s. get s 0x39;
      div_conf = λ s. get s 0x3E;
      set_div_conf = λ v s. ap done (set s 0x3E v);
      lvt_error = λ s. get s 0x37;
      set_lvt_error = λ v s. ap done (set s 0x37 v);
    }
    driver-Refines false h = record {
      id = reading 0x02 (omega arith);
      version = reading 0x03 (omega arith);
      eoi = writing 0x0B (omega arith) 0;
      esr = λ s.
          ap (λ t. t >>= λ s'. read d (record { base = base; x2 = false }) 0x280 s')
            (writing 0x28 (omega arith) 0 s)
          ∙ reading 0x28 (omega arith) (r.set s 0x28 0);
      lvt_timer = reading 0x32 (omega arith);
      set_lvt_timer = writing 0x32 (omega arith);
      init_count = reading 0x38 (omega arith);
      set_init_count = writing 0x38 (omega arith);
      cur_count = reading 0x39 (omega arith);
      div_conf = reading 0x3E (omega arith);
      set_div_conf = writing 0x3E (omega arith);
      lvt_error = reading 0x37 (omega arith);
      set_lvt_error = writing 0x37 (omega arith);
    }
      where
        reading :
            (reg : ℕ)
            → reg < 64
            → (s : S)
            → read d (record { base = base; x2 = false }) (16 * reg) s ≡ done (r.get s reg)
        reading reg lt s = read-get false reg h lt s

        writing :
            (reg : ℕ)
            → reg < 64
            → (v : ℕ) (s : S)
            → write d (record { base = base; x2 = false }) (16 * reg) v s ≡ done (r.set s reg v)
        writing reg lt v s = write-set false reg v h lt s
