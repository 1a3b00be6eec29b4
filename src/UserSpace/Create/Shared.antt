-- ===== src/UserSpace/Create/Shared.antt =====
-- What an address space shares with the kernel, and what becomes of its first pages.
use miniature.Base.{
  ℕ, ◌≡◌, ◌≢◌, inl, inr, refl, sym, ◌∙◌, subst, Bool, true, false, ◌||◌, Bool-cases, ◌==◌, ==_iff,
  if◌then◌else◌, arith,
}
use miniature.UserSpace.Create.{Tables, clone_entry, setup_kernel}

-- What is documented of the tables: an entry that is written is read, the others stay, and where a
-- page leads depends on its entry of the top table only.
pub record AreTables {T E : Type 0} (x : Tables T E) : Type 0 where
  pub entry-same : (t : T) (i : ℕ) (e : E) → x.entry (x.with_entry t i e) i ≡ e
  pub entry-other : (t : T) (i j : ℕ) (e : E) → j ≢ i → x.entry (x.with_entry t i e) j ≡ x.entry t j
  pub by_entry :
      (t u : T) (page : ℕ)
      → x.entry t (x.p4_index page) ≡ x.entry u (x.p4_index page)
      → x.translate t page ≡ x.translate u page

abbrev pub is_shared : ℕ → Bool
is_shared i = i == 511 || (i == 510 || (i == 509 || (i == 508 || i == 0)))

module _ {T E : Type 0} (x : Tables T E) (law : AreTables x) where
  -- An entry that a clone writes, or that was there.
  cloned :
      (kernel t : T) (i j : ℕ)
      → x.entry (clone_entry x kernel i t) j ≡ (if j == i then x.entry kernel j else x.entry t j)
  cloned kernel t i j = elim (Bool-cases (j == i)) [
    | inl same ↦ rw same (
        subst (λ j. x.entry (clone_entry x kernel i t) j ≡ x.entry kernel j)
          (sym ((==_iff j i).0 same)) (law.entry-same t i (x.entry kernel i)))
    | inr apart ↦ rw apart (law.entry-other t i j _ (λ q. different j i apart q))
  ]
    where
      different : (j i : ℕ) → (j == i) ≡ false → j ≡ i → ⊥
      different j i a q = ground arith

  setup_kernel-entry :
      (kernel t : T) (j : ℕ)
      → x.entry (setup_kernel x kernel t) j
        ≡ (if is_shared j then x.entry kernel j else x.entry t j)
  unfolding setup_kernel
  setup_kernel-entry kernel t j =
      cloned kernel _ 0 j
      ∙ rw
          (
            cloned kernel
                (clone_entry x kernel 509 (clone_entry x kernel 510 (clone_entry x kernel 511 t)))
                508 j,
            cloned kernel (clone_entry x kernel 510 (clone_entry x kernel 511 t)) 509 j,
            cloned kernel (clone_entry x kernel 511 t) 510 j,
            cloned kernel t 511 j,
          )
          (chosen (j == 511) (j == 510) (j == 509) (j == 508) (j == 0) (x.entry kernel j)
            (x.entry t j))
    where
      alike_one : (f : Bool) (k : E) → (if f then k else k) ≡ k
      alike_one true k = refl
      alike_one false k = refl

      alike_two : (d f : Bool) (k : E) → (if f then k else (if d then k else k)) ≡ k
      alike_two true f k = alike_one f k
      alike_two false f k = alike_one f k

      alike_three :
          (c d f : Bool) (k : E) → (if f then k else (if d then k else (if c then k else k))) ≡ k
      alike_three true d f k = alike_two d f k
      alike_three false d f k = alike_two d f k

      alike :
          (b c d f : Bool) (k : E)
          → (if f then k else (if d then k else (if c then k else (if b then k else k)))) ≡ k
      alike true c d f k = alike_three c d f k
      alike false c d f k = alike_three c d f k

      chosen :
          (a b c d f : Bool) (k o : E)
          → (if f
              then k
              else (if d then k else (if c then k else (if b then k else (if a then k else o)))))
            ≡ (if a || (b || (c || (d || f))) then k else o)
      chosen true b c d f k o = alike b c d f k
      chosen false true c d f k o = alike_three c d f k
      chosen false false true d f k o = alike_two d f k
      chosen false false false true f k o = alike_one f k
      chosen false false false false true k o = refl
      chosen false false false false false k o = refl

  -- In an address space that has been set up, a page of one of the five entries leads where the
  -- kernel's table leads, also a page that the address space had mapped before, and any other page
  -- leads where it did.
  pub setup_kernel-translates :
      (kernel t : T) (page : ℕ)
      → x.translate (setup_kernel x kernel t) page
        ≡ (if is_shared (x.p4_index page) then x.translate kernel page else x.translate t page)
  setup_kernel-translates kernel t page = elim (Bool-cases (is_shared (x.p4_index page))) [
    | inl shared ↦ rw shared (
        law.by_entry (setup_kernel x kernel t) kernel page
          (setup_kernel-entry kernel t (x.p4_index page) ∙ rw shared refl))
    | inr own ↦ rw own (
        law.by_entry (setup_kernel x kernel t) t page
          (setup_kernel-entry kernel t (x.p4_index page) ∙ rw own refl))
  ]
