-- ===== src/Commands/Codec/Options.antt =====
-- The options of SET, as SetCommand::to_resp prints them and parseSet reads them back.
use carrotdb.Base.{
  ℕ, zero, suc, ◌+◌, ◌/◌, ◌%◌, ◌^◌, ◌<◌, ◌≤◌, ◌≡◌, refl, ap, ◌∙◌, true, false, List, [], ◌∷◌, ◌++◌,
  Option, none, some, length, length-append, All, inl, inr, arith, ltb, ◌==◌, Bool-cases,
}
use carrotdb.Base.Decimal.{is_digit, print_u64, print_digits}
use carrotdb.Utils.{equal_loop, tolower, is_equal}
use carrotdb.Utils.Print.{convert_positive_string_to_number-print, print_u64-digits}
use carrotdb.Resp.Tokens.{HasNoCr}
use carrotdb.Resp.RoundTrip.{frame, frames, behind}
use carrotdb.Commands.Names.{Text, ex_word, px_word}
use carrotdb.Commands.Print.{option_args}
use carrotdb.Commands.Read.{next_bulk}
use carrotdb.Commands.Parse.Keys.{
  SetFlag, ex_flag, other_flag, px_flag, stop_here, set_flags, set_flag, bulk_number, number_or,
}
use carrotdb.Commands.Codec.{IsText, At, At-behind, At-past, past, next_bulk-here}

digit-no_cr : (x : ℕ) → is_digit x ≡ true → (x == b'\r') ≡ false
digit-no_cr x h = ground arith

digits-HasNoCr : (s : Text) → All (λ c. is_digit c ≡ true) s → HasNoCr s
digits-HasNoCr [] h = h
digits-HasNoCr (x ∷ s) h = (digit-no_cr x h.0, digits-HasNoCr s h.1)

length-print_digits : (k n : ℕ) → length (print_digits k n) ≤ suc k
unfolding print_digits
length-print_digits zero n = omega arith
length-print_digits (suc k) n = elim (Bool-cases (ltb n 10)) [
  | inl e ↦ rw e (omega arith)
  | inr e ↦ rw e (
      omega (
        arith,
        length-append (print_digits k (n / 10)) ((b'0' + n % 10) ∷ []),
        length-print_digits k (n / 10),
      ))
]

pub length-print_u64 : (n : ℕ) → length (print_u64 n) ≤ 20
unfolding print_u64
length-print_u64 n = length-print_digits 19 n

-- A printed number is a text that the token parser reads whole.
pub print_u64-IsText : (n : ℕ) → n < 2 ^ 64 → IsText (print_u64 n)
unfolding print_u64
print_u64-IsText n small = (
  digits-HasNoCr (print_u64 n) (print_u64-digits n small),
  omega (arith, length-print_digits 19 n),
)

-- A number that fits uint64_t, where there is one.
abbrev pub Fits : Option ℕ → Type 0
Fits none = Unit {0}
Fits (some n) = n < 2 ^ 64

ex_is : set_flag (some ex_word) ≡ ex_flag
unfolding set_flag is_equal equal_loop tolower
ex_is = refl

px_is : set_flag (some px_word) ≡ px_flag
unfolding set_flag is_equal equal_loop tolower
px_is = refl

module _ (raw : List ℕ) (n at : ℕ) (ex px : Option ℕ) where
  -- One pass of the loop, whatever the next token is.
  pass :
      (flag : Option Text × ℕ) (f : SetFlag)
      → next_bulk raw at ≡ flag
      → set_flag flag.0 ≡ f
      → set_flags (suc (suc n)) raw at ex px ≡ elim f [
        | stop_here ↦ ((ex, px), flag.1)
        | ex_flag ↦
            set_flags n raw (next_bulk raw flag.1).1 (bulk_number ex (next_bulk raw flag.1).0) px
        | px_flag ↦
            set_flags n raw (next_bulk raw flag.1).1 ex (bulk_number px (next_bulk raw flag.1).0)
        | other_flag ↦ set_flags (suc n) raw flag.1 ex px
      ]
  unfolding set_flags
  pass flag f e k =
      ap
        (λ p. elim (set_flag p.0) [
          | stop_here ↦ ((ex, px), p.1)
          | ex_flag ↦
              set_flags n raw (next_bulk raw p.1).1 (bulk_number ex (next_bulk raw p.1).0) px
          | px_flag ↦
              set_flags n raw (next_bulk raw p.1).1 ex (bulk_number px (next_bulk raw p.1).0)
          | other_flag ↦ set_flags (suc n) raw p.1 ex px
        ])
        e
      ∙ rw k refl

number_read : Option ℕ → Option Text × ℕ → Option ℕ × ℕ
number_read old (t, at) = (bulk_number old t, at)

module _ {raw : List ℕ} (m at : ℕ) (rest : List ℕ) (small : m < 2 ^ 64) where
  -- A number behind the word of an option.
  number_here :
      (word : Text)
      → IsText word
      → At raw at (frames (word ∷ print_u64 m ∷ []) rest)
      → (old : Option ℕ)
      → number_read old (next_bulk raw (behind word at))
        ≡ (some m, behind (print_u64 m) (behind word at))
  unfolding bulk_number number_or number_read
  number_here word t a old =
      ap (number_read old) (
        next_bulk-here (print_u64 m) rest (At-behind word (frame (print_u64 m) rest) a)
          (print_u64-IsText m small))
      ∙ ap (λ o. (number_or old o, behind (print_u64 m) (behind word at)))
          (convert_positive_string_to_number-print m small)

  pub ex_pass :
      (n : ℕ) (ex px : Option ℕ)
      → At raw at (frames (ex_word ∷ print_u64 m ∷ []) rest)
      → set_flags (suc (suc n)) raw at ex px
        ≡ set_flags n raw (past (ex_word ∷ print_u64 m ∷ []) at) (some m) px
  unfolding past number_read
  ex_pass n ex px a =
      let t : IsText ex_word = ((refl, (refl, tt)), omega arith) in
      pass raw n at ex px (some ex_word, behind ex_word at) ex_flag
        (next_bulk-here ex_word (frame (print_u64 m) rest) a t) ex_is
      ∙ ap (λ p. set_flags n raw p.1 p.0 px) (number_here ex_word t a ex)

  pub px_pass :
      (n : ℕ) (ex px : Option ℕ)
      → At raw at (frames (px_word ∷ print_u64 m ∷ []) rest)
      → set_flags (suc (suc n)) raw at ex px
        ≡ set_flags n raw (past (px_word ∷ print_u64 m ∷ []) at) ex (some m)
  unfolding past number_read
  px_pass n ex px a =
      let t : IsText px_word = ((refl, (refl, tt)), omega arith) in
      pass raw n at ex px (some px_word, behind px_word at) px_flag
        (next_bulk-here px_word (frame (print_u64 m) rest) a t) px_is
      ∙ ap (λ p. set_flags n raw p.1 ex p.0) (number_here px_word t a px)

-- The loop over the options of SET reads back what was printed for them.
pub set_flags-here :
    {raw : List ℕ} (at : ℕ) (ex px : Option ℕ) (rest : List ℕ)
    → Fits ex
    → Fits px
    → At raw at (frames (option_args ex_word ex ++ option_args px_word px) rest)
    → set_flags (length (option_args ex_word ex ++ option_args px_word px)) raw at none none
      ≡ ((ex, px), past (option_args ex_word ex ++ option_args px_word px) at)
unfolding option_args past set_flags
set_flags-here at none none rest fe fp a = refl
set_flags-here at (some n) none rest fe fp a = ex_pass n at rest fe 0 none none a
set_flags-here at none (some n) rest fe fp a = px_pass n at rest fp 0 none none a
set_flags-here at (some n) (some m) rest fe fp a =
    ex_pass n at (frames (px_word ∷ print_u64 m ∷ []) rest) fe 2 none none a
    ∙ px_pass m (past (ex_word ∷ print_u64 n ∷ []) at) rest fp 0 (some n) none
        (At-past (ex_word ∷ print_u64 n ∷ []) (frames (px_word ∷ print_u64 m ∷ []) rest) at a)
