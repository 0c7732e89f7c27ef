-- ===== src/Connector/Lock/Chain.antt =====
-- src/connectors/base.ts: programs one after the other on a session.
use total_recall.Base.{◌≡◌, refl, Result, ok, err, String, List, arith}
use total_recall.Db.{Session, Thrown, IsClean}
use total_recall.Db.CheckedOut.{Owes}
use total_recall.Connector.Lock.{Prog, next}

module _ {S E A B : Type 0} where
  pub next-Owes :
      (m : Result (Thrown E) A × Session S) (f : A → Prog S E B)
      → Owes m
      → ((a : A) (s : Session S) → IsClean s → Owes (f a s))
      → Owes (next m f)
  next-Owes (ok a, s) f o h = h a s o
  next-Owes (err t, s) f o h = o

  pub next-locks :
      (m : Result (Thrown E) A × Session S) (f : A → Prog S E B) (locks : List String)
      → m.1.locks ≡ locks
      → ((a : A) (s : Session S) → s.locks ≡ locks → (f a s).1.locks ≡ locks)
      → (next m f).1.locks ≡ locks
  next-locks (ok a, s) f locks l h = h a s l
  next-locks (err t, s) f locks l h = l

  -- An answer comes from an answer of each of the two.
  pub next-ok :
      (m : Result (Thrown E) A × Session S) (f : A → Prog S E B) (b : B) (s' : Session S)
      → next m f ≡ (ok b, s')
      → (a : A) × (s : Session S) × (m ≡ (ok a, s)) × (f a s ≡ (ok b, s'))
  next-ok (ok a, s) f b s' e = (a, s, refl, e)
  next-ok (err t, s) f b s' e = absurd (ground arith)
