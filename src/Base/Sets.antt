-- ===== src/Base/Sets.antt =====
-- Lists of numbers as sets: membership as a test, absence and distinctness as predicates.
use Prim.Native.Nat.{ℕ}
use mathlib.Core.Path.{◌≡◌, sym, subst}
use mathlib.Core.Logic.{◌≢◌, inl, inr}
use mathlib.Core.Bool.{Bool, true, false, ◌||◌}
use mathlib.Core.List.{List, [], ◌∷◌, ◌++◌}
use native.Mathlib.Omega.{arith}
use miniature.Base.Tests.{◌==◌, if◌then◌else◌, ==_iff, Bool-cases}
use miniature.Base.Lists.{All, All-append}

abbrev pub member : List ℕ → ℕ → Bool
member [] x = false
member (y ∷ ys) x = y == x || member ys x

abbrev pub Absent : ℕ → List ℕ → Type 0
Absent x = All (λ y. y ≢ x)

abbrev pub Distinct : List ℕ → Type 0
Distinct [] = Unit
Distinct (x ∷ xs) = Absent x xs × Distinct xs

-- The first occurrence is taken out.
abbrev pub without : ℕ → List ℕ → List ℕ
without x [] = []
without x (y ∷ ys) = if y == x then ys else y ∷ without x ys

pub Absent-of_member : (x : ℕ) (xs : List ℕ) → member xs x ≡ false → Absent x xs
Absent-of_member x [] h = tt
Absent-of_member x (y ∷ ys) h = ((ground arith), Absent-of_member x ys (ground arith))

pub Distinct-snoc : (xs : List ℕ) (x : ℕ) → Distinct xs → Absent x xs → Distinct (xs ++ x ∷ [])
Distinct-snoc [] x d a = (tt, tt)
Distinct-snoc (y ∷ ys) x d a =
    (All-append (λ z. z ≢ y) ys (x ∷ []) d.0 ((λ e. a.0 (sym e)), tt), Distinct-snoc ys x d.1 a.1)

module _ {κ} (P : ℕ → Type κ) where
  pub All-without : (x : ℕ) (xs : List ℕ) → All P xs → All P (without x xs)
  All-without x [] h = tt
  All-without x (y ∷ ys) h = ground (arith, All-without x ys h.1)

  -- Every member has the property.
  pub All-member : (x : ℕ) (xs : List ℕ) → All P xs → member xs x ≡ true → P x
  All-member x [] h m = cc
  All-member x (y ∷ ys) h m = ground (arith, All-member x ys h.1)

pub Distinct-without : (x : ℕ) (xs : List ℕ) → Distinct xs → Distinct (without x xs)
Distinct-without x [] d = tt
Distinct-without x (y ∷ ys) d =
    ground (arith, Distinct-without x ys d.1, All-without (λ z. z ≢ y) x ys d.0)

pub Absent-without : (x : ℕ) (xs : List ℕ) → Distinct xs → Absent x (without x xs)
Absent-without x [] d = tt
Absent-without x (y ∷ ys) d = elim (Bool-cases (y == x)) [
  | inl e ↦ rw e (subst (λ z. Absent z ys) ((==_iff y x).0 e) d.0)
  | inr e ↦ rw e ((λ q. cc (e, (==_iff y x).1 q)), Absent-without x ys d.1)
]
