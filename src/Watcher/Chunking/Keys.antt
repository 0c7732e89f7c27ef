-- ===== src/Watcher/Chunking/Keys.antt =====
-- src/watcher/chunking.ts: sections of a file under different paths have different keys.
use total_recall.Base.{
  ℕ, ◌≡◌, refl, sym, ap, ◌∙◌, Bool, true, false, Option, none, some, List, ◌∷◌, ◌++◌, Result, ok,
  err, arith, codes, if◌then◌else◌,
}
use total_recall.Watcher.Chunking.{
  KeyError, SectionPath, occurrence_text, parts, headed, hashed, legacy_key, frames, canonical,
  is_first, checked_path, build_source_key,
}
use total_recall.Watcher.Chunking.Frames.{
  append-injective, decimal_text-injective, frames-injective,
}

occurrence_text-injective : (m n : Option ℕ) → occurrence_text m ≡ occurrence_text n → m ≡ n
occurrence_text-injective none none e = refl
occurrence_text-injective none (some n) e = absurd (ground arith)
occurrence_text-injective (some m) none e = absurd (ground arith)
occurrence_text-injective (some m) (some n) e = ap some (decimal_text-injective m n (ground arith))

headed-ok :
    (r : Result KeyError (List ℕ)) (c : List ℕ)
    → headed r ≡ ok c
    → (b : List ℕ) × (r ≡ ok b) × (c ≡ codes "file-sync-key" ++ 0 ∷ codes "v2" ++ 0 ∷ b)
headed-ok (err e) c h = absurd (ground arith)
headed-ok (ok b) c h = (b, refl, ground arith)

hashed-ok :
    (sha256_hex : List ℕ → List ℕ) (r : Result KeyError (List ℕ)) (key : List ℕ)
    → hashed sha256_hex r ≡ ok key
    → (c : List ℕ) × (r ≡ ok c) × (key ≡ codes "file-sync:v2:" ++ sha256_hex c)
hashed-ok sha256_hex (err e) key h = absurd (ground arith)
hashed-ok sha256_hex (ok c) key h = (c, refl, ground arith)

parts-injective : (p q : SectionPath) → parts p ≡ parts q → p ≡ q
parts-injective p q e =
    let file : p.rel_path ≡ q.rel_path = ground arith in
    let heading : p.h2 ≡ q.h2 = ground arith in
    let number : p.h2_occurrence ≡ q.h2_occurrence =
      decimal_text-injective p.h2_occurrence q.h2_occurrence (ground arith) in
    let below : p.h3 ≡ q.h3 = ground arith in
    let number_below : p.h3_occurrence ≡ q.h3_occurrence =
      occurrence_text-injective p.h3_occurrence q.h3_occurrence (ground arith) in
    λ i. record {
      rel_path = file i;
      h2 = heading i;
      h2_occurrence = number i;
      h3 = below i;
      h3_occurrence = number_below i;
    }

canonical-injective :
    (p q : SectionPath) (c : List ℕ) → canonical p ≡ ok c → canonical q ≡ ok c → p ≡ q
unfolding canonical
canonical-injective p q c h k =
    let (b, e, is_c) = headed-ok (frames (parts p)) c h in
    let (b', e', is_c') = headed-ok (frames (parts q)) c k in
    let same : b ≡ b' = ground arith in
    parts-injective p q (frames-injective (parts p) (parts q) b refl e (e' ∙ ap ok (sym same)))

key_of-later :
    (sha256_hex : List ℕ → List ℕ) (p : SectionPath) (key : List ℕ)
    → is_first p ≡ false
    → build_source_key sha256_hex p ≡ ok key
    → (c : List ℕ) × (canonical p ≡ ok c) × (key ≡ codes "file-sync:v2:" ++ sha256_hex c)
unfolding build_source_key
key_of-later sha256_hex p key later h =
    hashed-ok sha256_hex (canonical p) key (checked (checked_path p) (is_first p) later h)
  where
    checked :
        (e : Option KeyError) (b : Bool)
        → b ≡ false
        → (let made : Result KeyError (List ℕ) = elim e [
          | some e ↦ err e
          | none ↦ if b then ok (legacy_key p) else hashed sha256_hex (canonical p)
        ] in
            made ≡ ok key)
        → hashed sha256_hex (canonical p) ≡ ok key
    checked (some e) b f w = absurd (ground arith)
    checked none true f w = absurd (ground arith)
    checked none false f w = w

-- Two sections, neither a first occurrence, that get the same key have the same path, the numbers of
-- their headings included, whatever bytes their headings hold, unless the hash collides on the two
-- framed paths.
pub build_source_key-injective :
    (sha256_hex : List ℕ → List ℕ) (p q : SectionPath) (key : List ℕ)
    → ((x y : List ℕ)
        → canonical p ≡ ok x
        → canonical q ≡ ok y
        → sha256_hex x ≡ sha256_hex y
        → x ≡ y)
    → is_first p ≡ false
    → is_first q ≡ false
    → build_source_key sha256_hex p ≡ ok key
    → build_source_key sha256_hex q ≡ ok key
    → p ≡ q
build_source_key-injective sha256_hex p q key no_collision later later' h k =
    let (c, e, is_key) = key_of-later sha256_hex p key later h in
    let (d, f, is_key') = key_of-later sha256_hex q key later' k in
    let same : sha256_hex c ≡ sha256_hex d =
      (append-injective (codes "file-sync:v2:") (codes "file-sync:v2:") (sha256_hex c)
        (sha256_hex d) refl (sym is_key ∙ is_key')).1 in
    canonical-injective p q c e (f ∙ ap ok (sym (no_collision c d e f same)))
