-- ===== src/Watcher/Chunking/Frames.antt =====
-- src/watcher/chunking.ts: framed texts are read back one by one.
use total_recall.Base.{
  ℕ, zero, suc, ◌+◌, ◌-◌, ◌*◌, ◌/◌, ◌%◌, ◌≡◌, ◌<◌, refl, sym, ap, ◌∙◌, Option, none, some, List, [],
  ◌∷◌, ◌++◌, Result, ok, err, arith, length, decimal_from,
}
use total_recall.Watcher.Chunking.{KeyError, frame, frames, uint32_be, digits, decimal_text}

-- Lists of equal length at the front of equal lists.
pub append-injective :
    (a b xs ys : List ℕ) → length a ≡ length b → a ++ xs ≡ b ++ ys → (a ≡ b) × (xs ≡ ys)
append-injective [] [] xs ys h e = (refl, e)
append-injective [] (y ∷ b) xs ys h e = absurd (ground arith)
append-injective (x ∷ a) [] xs ys h e = absurd (ground arith)
append-injective (x ∷ a) (y ∷ b) xs ys h e = ground (arith, append-injective a b xs ys)

uint32-injective :
    (m n : ℕ)
    → m < 4_294_967_296
    → n < 4_294_967_296
    → m / 16_777_216 % 256 ≡ n / 16_777_216 % 256
    → m / 65_536 % 256 ≡ n / 65_536 % 256
    → m / 256 % 256 ≡ n / 256 % 256
    → m % 256 ≡ n % 256
    → m ≡ n
uint32-injective m n h k a b c d = omega arith

decimal_from-append :
    (n c : ℕ) (cs : List ℕ) → decimal_from n (cs ++ c ∷ []) ≡ decimal_from n cs * 10 + (c - 48)
unfolding decimal_from
decimal_from-append n c [] = refl
decimal_from-append n c (d ∷ cs) = decimal_from-append (n * 10 + (d - 48)) c cs

digits_lem : (k n : ℕ) → n < k → decimal_from 0 (digits k n) ≡ n
unfolding decimal_from
digits_lem zero n h = absurd (omega arith)
digits_lem (suc k) n h = ground (
  arith,
  decimal_from-append 0 (48 + n % 10) [],
  decimal_from-append 0 (48 + n % 10) (digits k (n / 10)),
  digits_lem k (n / 10),
)

-- A number is read back from its digits.
pub decimal_text-injective : (m n : ℕ) → decimal_text m ≡ decimal_text n → m ≡ n
decimal_text-injective m n e =
    let a = digits_lem (suc m) m (omega arith) in
    let b = digits_lem (suc n) n (omega arith) in sym a ∙ ap (decimal_from 0) e ∙ b

frame-some :
    (p a : List ℕ)
    → frame (some p) ≡ ok a
    → (length p < 4_294_967_296) × (a ≡ 1 ∷ uint32_be (length p) ++ p)
unfolding frame
frame-some p a h = ground arith

same_texts :
    (p q xs ys : List ℕ)
    → length p < 4_294_967_296
    → length q < 4_294_967_296
    → (1 ∷ uint32_be (length p) ++ p) ++ xs ≡ (1 ∷ uint32_be (length q) ++ q) ++ ys
    → (p ≡ q) × (xs ≡ ys)
same_texts p q xs ys small small' e =
    let same : length p ≡ length q =
      ground (arith, uint32-injective (length p) (length q) small small') in
    let rest : p ++ xs ≡ q ++ ys = ground arith in append-injective p q xs ys same rest

-- A text's frame, and what follows, give back the text.
frame-injective :
    (x y : Option (List ℕ)) (a b xs ys : List ℕ)
    → frame x ≡ ok a
    → frame y ≡ ok b
    → a ++ xs ≡ b ++ ys
    → (x ≡ y) × (xs ≡ ys)
unfolding frame
frame-injective none none a b xs ys h k e = ground arith
frame-injective none (some q) a b xs ys h k e = let f = frame-some q b k in absurd (ground arith)
frame-injective (some p) none a b xs ys h k e = let f = frame-some p a h in absurd (ground arith)
frame-injective (some p) (some q) a b xs ys h k e =
    let (small, is_a) = frame-some p a h in
    let (small', is_b) = frame-some q b k in
    let both = same_texts p q xs ys small small' (cc) in (ap some both.0, both.1)

frames-cases :
    (x : Option (List ℕ)) (xs : List (Option (List ℕ))) (c : List ℕ)
    → frames (x ∷ xs) ≡ ok c
    → (a : List ℕ) × (b : List ℕ) × (frame x ≡ ok a) × (frames xs ≡ ok b) × (c ≡ a ++ b)
unfolding frames
frames-cases x xs c h = apart (frame x) (frames xs) refl refl h
  where
    apart :
        (r s : Result KeyError (List ℕ))
        → frame x ≡ r
        → frames xs ≡ s
        → (let whole : Result KeyError (List ℕ) = elim r [
          | err e ↦ err e
          | ok a ↦ elim s [ err e ↦ err e | ok b ↦ ok (a ++ b) ]
        ] in
            whole ≡ ok c)
        → (a : List ℕ) × (b : List ℕ) × (frame x ≡ ok a) × (frames xs ≡ ok b) × (c ≡ a ++ b)
    apart (err e) s p q w = absurd (ground arith)
    apart (ok a) (err e) p q w = absurd (ground arith)
    apart (ok a) (ok b) p q w = (a, b, p, q, ground arith)

-- As many frames are read back as were written.
pub frames-injective :
    (xs ys : List (Option (List ℕ))) (c : List ℕ)
    → length xs ≡ length ys
    → frames xs ≡ ok c
    → frames ys ≡ ok c
    → xs ≡ ys
frames-injective [] [] c n h k = refl
frames-injective [] (y ∷ ys) c n h k = absurd (omega arith)
frames-injective (x ∷ xs) [] c n h k = absurd (omega arith)
frames-injective (x ∷ xs) (y ∷ ys) c n h k =
    let (a, b, p, q, e) = frames-cases x xs c h in
    let (a', b', p', q', e') = frames-cases y ys c k in
    let (same, rest) = frame-injective x y a a' b b' p p' (sym e ∙ e') in
    let tails = frames-injective xs ys b (omega arith) q (q' ∙ ap ok (sym rest)) in cc
