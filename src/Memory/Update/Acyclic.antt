-- ===== src/Memory/Update/Acyclic.antt =====
-- src/tools/update.ts: the links between beliefs stay free of cycles.
use total_recall.Base.{
  ℕ, ◌≡◌, refl, sym, subst, Bool, false, ◌⊎◌, inl, inr, none, some, List, [], ◌∷◌, String, eq_iff,
  str_eq, arith, Occurs, update_where, Occurs-update_where, if◌then◌else◌, Bool-cases, not, ◌&&◌,
  ◌||◌, is_some, ltb, ◌==◌, count_where,
}
use total_recall.Auth.Keys.{AuthContext}
use total_recall.Memory.Beliefs.{BeliefRow, BeliefTables, HasPrimaryKey, supersedes}
use total_recall.Memory.Patch.{
  UpdateParams, UpdateRun, UpdateError, other_namespace, expiring, already_linked, partial_schema,
  already_succeeded, cycle, current_row, finds_cycle, check_predecessor, patched, is_patchable,
  is_closable, closed,
}
use total_recall.Memory.Update.{linked, patch_target, link_target}
use total_recall.Memory.Update.Links.{
  Links, IsAcyclic, finds_cycle-reached, Adds-acyclic, sub-acyclic,
}

pub Occurs-current_row :
    (auth : AuthContext) (now : ℕ) (id : String) (rows : List BeliefRow) (m : BeliefRow)
    → current_row auth now id rows ≡ some m
    → Occurs m rows
unfolding current_row
Occurs-current_row auth now id [] m e = ground arith
Occurs-current_row auth now id (r ∷ rows) m e =
    ground (arith, Occurs-current_row auth now id rows m)

last_gate :
    (b c d e f g : Bool) (u v w x y z : UpdateError)
    → (if b
        then some u
        else if c
        then some v
        else if d
        then some w
        else if e
        then some x
        else if f
        then some y
        else if g
        then some z
        else none)
      ≡ none
    → g ≡ false
last_gate b c d e f g u v w x y z h = ground arith

module _ (auth : AuthContext) (p : UpdateParams) (run : UpdateRun) where
  Links-patched :
      (target : BeliefRow) (rows : List BeliefRow) (a b : String)
      → Links (update_where (is_patchable run target.id) (patched p run none target) rows) a b
      → Links rows a b
  unfolding patched
  Links-patched target rows a b (r, o, same, up) =
      let (x, ox, e) =
        Occurs-update_where (is_patchable run target.id) (patched p run none target) rows r o in
      (x, ox, ground arith, ground arith)

  Links-linked :
      (target q : BeliefRow) (rows : List BeliefRow) (a b : String)
      → Links (update_where (is_closable q.id) (closed run) (linked auth p run target q rows)) a b
      → Links rows a b ⊎ ((a ≡ target.id) × (b ≡ q.id))
  unfolding patched
  Links-linked target q rows a b (r, o, same, up) =
      let (y, oy, ey) =
        Occurs-update_where (is_closable q.id) (closed run) (linked auth p run target q rows) r o in
      let (x, ox, ex) =
        Occurs-update_where (is_patchable run target.id) (patched p run (some q) target) rows y
          oy in
      elim (Bool-cases (is_patchable run target.id x)) [
        | inl hit ↦ inr (ground (arith, eq_iff x.id target.id), ground arith)
        | inr other ↦ inl (x, ox, ground arith, ground arith)
      ]

  no_cycle :
      (rows : List BeliefRow) (target q : BeliefRow)
      → check_predecessor run rows target q ≡ none
      → finds_cycle rows target.id 100 q.id ≡ false
  unfolding check_predecessor
  no_cycle rows target q e =
      last_gate (not (str_eq q.namespace target.namespace))
        (is_some q.expires_at || is_some target.expires_at) (is_some target.supersedes_id)
        (not (run.validity_columns == 0) && not (run.validity_columns == 3))
        (ltb 0 (count_where (supersedes q.id) rows) || is_some q.superseded_at)
        (finds_cycle rows target.id 100 q.id) other_namespace expiring already_linked partial_schema
        already_succeeded cycle e

  linked-IsAcyclic :
      (target q : BeliefRow) (rows : List BeliefRow)
      → HasPrimaryKey rows
      → Occurs target rows
      → finds_cycle rows target.id 100 q.id ≡ false
      → IsAcyclic rows
      → IsAcyclic (update_where (is_closable q.id) (closed run) (linked auth p run target q rows))
  linked-IsAcyclic target q rows key o missed old =
      Adds-acyclic (Links rows)
        (Links (update_where (is_closable q.id) (closed run) (linked auth p run target q rows)))
        target.id q.id (Links-linked target q rows)
        (λ path.
          let found = finds_cycle-reached rows 100 target q.id target.id key o refl path in
          absurd (ground arith))
        old

  patch-cases :
      (target : BeliefRow) (t : BeliefTables)
      → ((patch_target auth p run target t).1.memories ≡ t.memories)
        ⊎ ((patch_target auth p run target t).1.memories
            ≡ update_where (is_patchable run target.id) (patched p run none target) t.memories)
  unfolding patch_target
  patch-cases target t = ground arith

  link-cases :
      (target q : BeliefRow) (t : BeliefTables)
      → ((link_target auth p run target q t).1.memories ≡ t.memories)
        ⊎ ((link_target auth p run target q t).1.memories
            ≡ update_where (is_closable q.id) (closed run) (linked auth p run target q t.memories))
  unfolding link_target
  link-cases target q t = ground arith

  pub patch-IsAcyclic :
      (target : BeliefRow) (t : BeliefTables)
      → IsAcyclic t.memories
      → IsAcyclic (patch_target auth p run target t).1.memories
  patch-IsAcyclic target t old = elim (patch-cases target t) [
    | inl same ↦ subst IsAcyclic (sym same) old
    | inr e ↦ subst IsAcyclic (sym e) (
        sub-acyclic (Links t.memories)
          (Links (update_where (is_patchable run target.id) (patched p run none target) t.memories))
          (Links-patched target t.memories) old)
  ]

  pub link-IsAcyclic :
      (target q : BeliefRow) (t : BeliefTables)
      → HasPrimaryKey t.memories
      → Occurs target t.memories
      → check_predecessor run t.memories target q ≡ none
      → IsAcyclic t.memories
      → IsAcyclic (link_target auth p run target q t).1.memories
  link-IsAcyclic target q t key o clear old = elim (link-cases target q t) [
    | inl same ↦ subst IsAcyclic (sym same) old
    | inr e ↦
        subst IsAcyclic (sym e)
          (linked-IsAcyclic target q t.memories key o (no_cycle t.memories target q clear) old)
  ]
