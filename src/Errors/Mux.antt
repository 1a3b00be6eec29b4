-- ===== src/Errors/Mux.antt =====
-- What the encoding of results keeps.
use miniature.Base.{
  ℕ, ◌-◌, ◌%◌, ◌^◌, ◌≤◌, ◌<◌, ◌≡◌, refl, sym, ap, ◌∙◌, false, ◌==◌, done, done-injective, word,
  arith,
}
use miniature.Errors.{KResult, ok, err, as_usize, mux}
use miniature.Errors.Codes.{Errno, number}

pub number_bounds : (e : Errno) → (1 ≤ number e) × (number e ≤ 131)
unfolding number
number_bounds e = ground arith

-- A value that stays below the last `limit` words, or an error that is numbered from 1 to `limit`.
abbrev pub Fits : ℕ → KResult → Type 0
Fits limit (ok value) = value < word - limit
Fits limit (err e) = (1 ≤ e.errno) × (e.errno ≤ limit)

negative : (n : ℕ) → 1 ≤ n → n < 2 ^ 31 → as_usize ((2 ^ 32 - n) % 2 ^ 32) ≡ word - n
negative n low high = ground arith

-- The word of a result that fits.
abbrev word_of : KResult → ℕ
word_of (ok value) = value
word_of (err e) = word - e.errno

mux-word_of : (limit : ℕ) (r : KResult) → limit < 2 ^ 31 → Fits limit r → mux r ≡ done (word_of r)
unfolding mux
mux-word_of limit (ok value) h f = refl
mux-word_of limit (err e) h (low, high) =
    rw (not_least e.errno (omega (arith, h, high)))
      (ap done (negative e.errno low (omega (arith, h, high))))
  where
    not_least : (n : ℕ) → n < 2 ^ 31 → (n == 2 ^ 31) ≡ false
    not_least n lt = ground arith

word_of-injective :
    (limit : ℕ) (r s : KResult)
    → limit < 2 ^ 31
    → Fits limit r
    → Fits limit s
    → word_of r ≡ word_of s
    → r ≡ s
word_of-injective limit (ok v) (ok w) h f g e = ap ok e
word_of-injective limit (ok v) (err d) h f g e = absurd (omega (arith, h, f, g, e))
word_of-injective limit (err c) (ok w) h f g e = absurd (omega (arith, h, f, g, e))
word_of-injective limit (err c) (err d) h f g e =
    let same : c.errno ≡ d.errno = omega (arith, h, f, g, e) in
    ap (λ n. err (record { errno = n })) same

-- If the errors in use are numbered from 1 to a limit below 2 ^ 31, and the values stay below that
-- many of the last words: every result is encoded without a panic, and two results with the same
-- word are the same.
pub mux-injective :
    (limit : ℕ) (r s : KResult)
    → limit < 2 ^ 31
    → Fits limit r
    → Fits limit s
    → mux r ≡ mux s
    → ((a : ℕ) × (mux r ≡ done a)) × (r ≡ s)
mux-injective limit r s h f g e =
    let there = mux-word_of limit r h f in
    (
      (word_of r, there),
      word_of-injective limit r s h f g (done-injective (sym there ∙ e ∙ mux-word_of limit s h g)),
    )
