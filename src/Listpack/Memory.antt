-- ===== src/Listpack/Memory.antt =====
-- Blocks of bytes as lists, an address as the distance from the start of its block.
use mathlib.Core.Path.{ap₂}
use carrotdb.Base.{
  ℕ, zero, suc, ◌+◌, ◌-◌, ◌≤◌, ◌≡◌, refl, sym, ap, ◌∙◌, List, [], ◌∷◌, ◌++◌, append-nil,
  append_assoc, length, take, drop, replicate, length-append, length-take, length-replicate,
  drop-append, take-append, drop-drop, arith,
}

-- A byte that was allocated and not yet written. No proof looks at its value.
unfoldable pub uninit : ℕ
uninit = 0

unfoldable pub memmove : List ℕ → ℕ → ℕ → ℕ → List ℕ
memmove buf dst src n = take dst buf ++ (take n (drop src buf) ++ drop (dst + n) buf)

unfoldable pub memcpy : List ℕ → ℕ → List ℕ → List ℕ
memcpy buf dst bytes = take dst buf ++ (bytes ++ drop (dst + length bytes) buf)

-- A new block of `size` bytes that begins with the first `kept` bytes of another.
unfoldable pub new_block : ℕ → ℕ → List ℕ → List ℕ
new_block size kept buf = take kept buf ++ replicate (size - kept) uninit

module _ {ℓ} {A : Type ℓ} where
  pub take_at : (n : ℕ) (xs ys : List A) → n ≡ length xs → take n (xs ++ ys) ≡ xs
  take_at n xs ys e = rw e (take-append xs ys)

  pub drop_at : (n : ℕ) (xs ys : List A) → n ≡ length xs → drop n (xs ++ ys) ≡ ys
  drop_at n xs ys e = rw e (drop-append xs ys)

  pub drop_past : (m n : ℕ) (xs ys : List A) → n ≡ length xs + m → drop n (xs ++ ys) ≡ drop m ys
  drop_past m n xs ys e =
      rw e (sym (drop-drop m (length xs) (xs ++ ys)) ∙ ap (drop m) (drop-append xs ys))

  pub drop_whole : (n : ℕ) (xs : List A) → length xs ≤ n → drop n xs ≡ []
  drop_whole zero [] h = refl
  drop_whole zero (x ∷ xs) h = absurd (omega arith)
  drop_whole (suc n) [] h = refl
  drop_whole (suc n) (x ∷ xs) h = drop_whole n xs (omega arith)

  pub take-take : (m n : ℕ) (xs : List A) → m ≤ n → take m (take n xs) ≡ take m xs
  take-take zero n xs h = refl
  take-take (suc m) zero xs h = absurd (omega arith)
  take-take (suc m) (suc n) [] h = refl
  take-take (suc m) (suc n) (x ∷ xs) h = ap (λ t. x ∷ t) (take-take m n xs (omega arith))

  pub take_front : (n : ℕ) (xs ys : List A) → n ≤ length xs → take n (xs ++ ys) ≡ take n xs
  take_front zero xs ys h = refl
  take_front (suc n) [] ys h = absurd (omega arith)
  take_front (suc n) (x ∷ xs) ys h = ap (λ t. x ∷ t) (take_front n xs ys (omega arith))

grown :
    (a b junk : List ℕ) (old room : ℕ)
    → old ≡ length a + length b
    → new_block (old + room) old (a ++ (b ++ junk))
      ≡ (a ++ b) ++ replicate (old + room - old) uninit
unfolding new_block
grown a b junk old room e =
    ap (λ t. t ++ replicate (old + room - old) uninit)
      (ap (take old) (sym (append_assoc a b junk))
        ∙ take_at old (a ++ b) junk (e ∙ sym (length-append a b)))

-- What memmove does to the tail `b` of a block that is followed by enough unused bytes.
moved_up :
    (a b rest : List ℕ) (p room : ℕ)
    → p ≡ length a
    → length rest ≡ room
    → memmove ((a ++ b) ++ rest) (p + room) p (length b) ≡ take (p + room) ((a ++ b) ++ rest) ++ b
unfolding memmove
moved_up a b rest p room e er =
    ap (λ t. take (p + room) ((a ++ b) ++ rest) ++ t)
      (ap₂ (λ x y. x ++ y) source past ∙ append-nil b)
  where
    source : take (length b) (drop p ((a ++ b) ++ rest)) ≡ b
    source =
        ap (take (length b)) (ap (drop p) (append_assoc a b rest) ∙ drop_at p a (b ++ rest) e)
        ∙ take-append b rest

    past : drop (p + room + length b) ((a ++ b) ++ rest) ≡ []
    past =
        drop_whole (p + room + length b) ((a ++ b) ++ rest)
          (omega (arith, length-append (a ++ b) rest, length-append a b))

-- Two copies one behind the other, over the gap before `b`.
two_copies :
    (a x b enc back : List ℕ) (p : ℕ)
    → p ≡ length a
    → take p x ≡ a
    → length x ≡ p + (length enc + length back)
    → memcpy (memcpy (x ++ b) p enc) (p + length enc) back ≡ a ++ (enc ++ (back ++ b))
unfolding memcpy
two_copies a x b enc back p e t l =
    ap (λ y. take (p + length enc) y ++ (back ++ drop (p + length enc + length back) y)) first
    ∙ ap₂ (λ y z. y ++ (back ++ z)) front rest
    ∙ append_assoc a enc (back ++ b)
  where
    gap : List ℕ
    gap = drop (p + length enc) (x ++ b)

    first : take p (x ++ b) ++ (enc ++ gap) ≡ (a ++ enc) ++ gap
    first =
        ap (λ y. y ++ (enc ++ gap)) (take_front p x b (omega arith) ∙ t)
        ∙ sym (append_assoc a enc gap)

    lengths : length (a ++ enc) ≡ p + length enc
    lengths = omega (arith, length-append a enc)

    front : take (p + length enc) ((a ++ enc) ++ gap) ≡ a ++ enc
    front = take_at _ (a ++ enc) gap (sym lengths)

    rest : drop (p + length enc + length back) ((a ++ enc) ++ gap) ≡ b
    rest =
        drop_past (length back) _ (a ++ enc) gap (omega (arith, lengths))
        ∙ drop-drop (length back) (p + length enc) (x ++ b)
        ∙ drop_at _ x b (omega arith)

-- Room is made before `b`, and the element `enc` with the length `back` is written there.
pub open_gap :
    (a b junk enc back : List ℕ) (old p room : ℕ)
    → p ≡ length a
    → old ≡ length a + length b
    → room ≡ length enc + length back
    → memcpy
        (memcpy
          (memmove (new_block (old + room) old (a ++ (b ++ junk))) (p + room) p (old - p))
          p
          enc)
        (p + length enc)
        back
      ≡ a ++ (enc ++ (back ++ b))
open_gap a b junk enc back old p room ep eo er =
    ap (λ y. memcpy (memcpy y p enc) (p + length enc) back) moved
    ∙ two_copies a x b enc back p ep kept long
  where
    rest : List ℕ
    rest = replicate (old + room - old) uninit

    rest_length : length rest ≡ room
    rest_length = length-replicate (old + room - old) uninit ∙ omega arith

    x : List ℕ
    x = take (p + room) ((a ++ b) ++ rest)

    count : old - p ≡ length b
    count = omega arith

    moved : memmove (new_block (old + room) old (a ++ (b ++ junk))) (p + room) p (old - p) ≡ x ++ b
    moved =
        ap₂ (λ y n. memmove y (p + room) p n) (grown a b junk old room eo) count
        ∙ moved_up a b rest p room ep rest_length

    kept : take p x ≡ a
    kept =
        take-take p (p + room) ((a ++ b) ++ rest) (omega arith)
        ∙ ap (take p) (append_assoc a b rest)
        ∙ take_at p a (b ++ rest) ep

    long : length x ≡ p + (length enc + length back)
    long = omega (
      arith,
      length-take (p + room) ((a ++ b) ++ rest),
      length-append (a ++ b) rest,
      length-append a b,
      rest_length,
    )

-- The bytes `e` before `b` are closed up, and the block is cut to what is then in use.
pub close_gap :
    (a e b junk : List ℕ) (old p : ℕ)
    → p ≡ length a
    → old ≡ length a + (length e + length b)
    → new_block
        (old - length e)
        (old - length e)
        (memmove (a ++ (e ++ (b ++ junk))) p (p + length e) (old - p - length e))
      ≡ a ++ b
unfolding memmove new_block
close_gap a e b junk old p ep eo =
    ap₂ (λ x n. take (old - length e) x ++ replicate n uninit) shape none_left
    ∙ append-nil (take (old - length e) ((a ++ b) ++ tail))
    ∙ take_at (old - length e) (a ++ b) tail (omega (arith, length-append a b))
  where
    none_left : old - length e - (old - length e) ≡ 0
    none_left = omega arith

    block : List ℕ
    block = a ++ (e ++ (b ++ junk))

    tail : List ℕ
    tail = drop (p + (old - p - length e)) block

    source : take (old - p - length e) (drop (p + length e) block) ≡ b
    source =
        ap (take (old - p - length e)) (
          drop_past (length e) (p + length e) a (e ++ (b ++ junk)) (omega arith)
          ∙ drop-append e (b ++ junk))
        ∙ take_at _ b junk (omega arith)

    shape :
        take p block ++ (take (old - p - length e) (drop (p + length e) block) ++ tail)
        ≡ (a ++ b) ++ tail
    shape = ap₂ (λ x y. x ++ (y ++ tail)) (take_at p a _ ep) source ∙ sym (append_assoc a b tail)
