-- ===== src/Watcher/Chunking.antt =====
-- src/watcher/chunking.ts: the source keys of the sections of a file. A text is the list of its bytes in
-- UTF-8; the hash, in hexadecimal, is a parameter.
mod Frames
mod Keys
mod Tests
use total_recall.Base.{
  ℕ, zero, suc, ◌+◌, ◌-◌, ◌*◌, ◌/◌, ◌%◌, ◌==◌, ltb, leb, Bool, true, false, not, ◌&&◌, ◌||◌, Option,
  none, some, List, [], ◌∷◌, ◌++◌, if◌then◌else◌, is_some, Result, ok, err, length, codes,
  is_safe_integer,
}

pub data KeyError : Type 0 where
  invalid_h2_occurrence unpaired_h3 invalid_h3_occurrence text_too_long : KeyError

-- A heading with its number among the equal ones, at one or two levels.
pub record SectionPath : Type 0 where
  pub rel_path : List ℕ
  pub h2 : List ℕ
  pub h2_occurrence : ℕ
  pub h3 : Option (List ℕ)
  pub h3_occurrence : Option ℕ

-- `writeUInt32BE`
abbrev pub uint32_be : ℕ → List ℕ
uint32_be n = n / 16_777_216 % 256 ∷ n / 65_536 % 256 ∷ n / 256 % 256 ∷ n % 256 ∷ []

unfoldable pub frame : Option (List ℕ) → Result KeyError (List ℕ)
frame none = ok (0 ∷ 0 ∷ 0 ∷ 0 ∷ 0 ∷ [])
frame (some bytes) =
    if ltb (length bytes) 4_294_967_296
    then ok (1 ∷ uint32_be (length bytes) ++ bytes)
    else err text_too_long

unfoldable pub frames : List (Option (List ℕ)) → Result KeyError (List ℕ)
unfolding frame
frames [] = ok []
frames (x ∷ xs) = elim (frame x) [
  | err e ↦ err e
  | ok a ↦ elim (frames xs) [ err e ↦ err e | ok b ↦ ok (a ++ b) ]
]

-- `String(n)`, with enough rounds for its digits.
abbrev pub digits : ℕ → ℕ → List ℕ
digits zero n = []
digits (suc k) n =
    let rest = digits k (n / 10) in (if ltb n 10 then [] else rest) ++ (48 + n % 10) ∷ []

abbrev pub decimal_text : ℕ → List ℕ
decimal_text n = digits (suc n) n

abbrev pub is_occurrence : ℕ → Bool
is_occurrence n = leb 1 n && is_safe_integer n

abbrev pub is_first : SectionPath → Bool
is_first p = p.h2_occurrence == 1 && (elim p.h3_occurrence [ none ↦ true | some n ↦ n == 1 ])

abbrev pub occurrence_text : Option ℕ → Option (List ℕ)
occurrence_text none = none
occurrence_text (some n) = some (decimal_text n)

abbrev pub parts : SectionPath → List (Option (List ℕ))
parts p =
    some p.rel_path
    ∷ some p.h2
    ∷ some (decimal_text p.h2_occurrence)
    ∷ p.h3
    ∷ occurrence_text p.h3_occurrence
    ∷ []

abbrev pub headed : Result KeyError (List ℕ) → Result KeyError (List ℕ)
headed (err e) = err e
headed (ok bytes) = ok (codes "file-sync-key" ++ 0 ∷ codes "v2" ++ 0 ∷ bytes)

unfoldable pub canonical : SectionPath → Result KeyError (List ℕ)
canonical p = headed (frames (parts p))

abbrev pub checked_path : SectionPath → Option KeyError
checked_path p =
    if not (is_occurrence p.h2_occurrence)
    then some invalid_h2_occurrence
    else if not (is_some p.h3) && is_some p.h3_occurrence
        || is_some p.h3 && not (is_some p.h3_occurrence)
    then some unpaired_h3
    else if (elim p.h3_occurrence [ none ↦ false | some n ↦ not (is_occurrence n) ])
    then some invalid_h3_occurrence
    else none

-- The key of the first occurrences, as it always was.
abbrev pub legacy_key : SectionPath → List ℕ
legacy_key p =
    codes "file-sync:"
    ++ p.rel_path
    ++ codes ":"
    ++ (elim p.h3 [ none ↦ p.h2 | some h3 ↦ p.h2 ++ codes ":" ++ h3 ])

module _ (sha256_hex : List ℕ → List ℕ) where
  abbrev pub hashed : Result KeyError (List ℕ) → Result KeyError (List ℕ)
  hashed (err e) = err e
  hashed (ok bytes) = ok (codes "file-sync:v2:" ++ sha256_hex bytes)

  unfoldable pub build_source_key : SectionPath → Result KeyError (List ℕ)
  build_source_key p = elim (checked_path p) [
    | some e ↦ err e
    | none ↦ if is_first p then ok (legacy_key p) else hashed (canonical p)
  ]
