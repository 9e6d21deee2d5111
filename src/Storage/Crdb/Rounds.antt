-- ===== src/Storage/Crdb/Rounds.antt =====
-- The rounds of the recursive queries that go down the table.
use mathlib.Core.List.{append-nil}
use fertilesoil.Base.{
  ℕ, zero, suc, ◌+◌, ◌≤◌, ◌<◌, ◌≡◌, refl, sym, ap, ◌∙◌, Bool, true, false, not, ◌&&◌, ◌||◌, [], ◌∷◌,
  ◌++◌, ◌==◌, ltb, length, length-append, arith, count, select, SameItems, count-append, count_or,
  count_ext, ok, inl, inr, Option-cases, Bool-cases, ==_iff,
}
use fertilesoil.Api.{DirectoryId, Directory, has_id}
use fertilesoil.Storage.DirMap.{DirMap}
use fertilesoil.Storage.Memory.Tree.{IsTree, rank, directories}
use fertilesoil.Storage.Memory.Walk.{
  has_id-count, has_id-append, parent_in, Invariant, none_lower, once, slice-le,
}
use fertilesoil.Storage.Crdb.Table.{Rows}
use fertilesoil.Storage.Crdb.Recursive.{distinct, rounds, with_recursive, parent_among}
use fertilesoil.Storage.Crdb.Entries.{IsOnce, distinct-IsOnce}

-- A round whose rows are all new.
pub rounds_step :
    (fuel : ℕ) (step : Rows → Rows) (found : Rows) (r : Directory) (last new : Rows)
    → distinct found (step (r ∷ last)) ≡ new
    → rounds (suc fuel) step found (r ∷ last) ≡ rounds fuel step (found ++ new) new
unfolding rounds
rounds_step fuel step found r last new e = ap (λ new'. rounds fuel step (found ++ new') new') e

-- One more round passed.
parent_in-append :
    (id : DirectoryId) (done queue : Rows) (d : Directory)
    → parent_in id (done ++ queue) d ≡ (parent_in id done d || parent_among queue d)
parent_in-append id done queue d = elim (Option-cases d.parent) [
  | inl top ↦ ground arith
  | inr (p, up) ↦ ground (arith, has_id-append p done queue)
]

-- Where no row is low, no id of a row is.
has_id-higher :
    (low : DirectoryId → Bool) (x : DirectoryId) (ds : Rows)
    → count (λ (d : Directory). low d.id) ds ≡ 0
    → has_id x ds ≡ true
    → low x ≡ false
has_id-higher low x [] h here = absurd (cc)
has_id-higher low x (d ∷ ds) h here = elim (Bool-cases (d.id == x)) [
  | inl same ↦ let e : low d.id ≡ low x = ap low ((==_iff d.id x).0 same) in ground arith
  | inr other ↦ ground (arith, has_id-higher low x ds)
]

module _ (m : DirMap) (id : DirectoryId) (t : Directory → Bool) (linked : Rows) (tree : IsTree m)
    (same : SameItems linked (select t (directories m))) where
  abbrev is_low : DirectoryId → Bool
  is_low x = not (ltb (rank m id) (rank m x))

  -- All rows of a result stand above the directory asked for.
  pub found_higher :
      (done queue : Rows) (x : DirectoryId)
      → Invariant m id t linked done queue
      → has_id x (done ++ queue) ≡ true
      → rank m id < rank m x
  found_higher done queue x inv here = ground (
    arith,
    has_id-higher is_low x (done ++ queue) (none_lower m id t linked tree same done queue inv),
  )

  not_twice :
      (done queue : Rows) (x : DirectoryId)
      → Invariant m id t linked done queue
      → has_id x done ≡ true
      → has_id x queue ≡ false
  not_twice done queue x inv here = ground (
    arith,
    once m id t linked tree same done queue x inv,
    count-append (λ (d : Directory). d.id == x) done queue,
    has_id-count x done,
    has_id-count x queue,
  )

  -- The parent of a row is not in two rounds.
  apart :
      (done queue : Rows) (p : Directory → Bool) (d : Directory)
      → Invariant m id t linked done queue
      → (p d && parent_in id done d) ≡ true
      → (p d && parent_among queue d) ≡ false
  apart done queue p d inv h = elim (Option-cases d.parent) [
    | inl top ↦ ground arith
    | inr (q, up) ↦ elim (Bool-cases (has_id q queue)) [
      | inr out ↦ ground arith
      | inl here ↦ elim (Bool-cases (q == id)) [
        | inl at_id ↦
            let r : rank m q ≡ rank m id = ap (rank m) ((==_iff q id).0 at_id) in
            let above =
              found_higher done queue q inv (ground (arith, has_id-append q done queue)) in
            absurd (omega arith)
        | inr off ↦ absurd (ground (arith, not_twice done queue q inv))
      ]
    ]
  ]

  -- The step of a query: it gives the linked rows whose parent is one of the last round.
  module _ (step : Rows → Rows)
      (joins : (last : Rows) (p : Directory → Bool)
        → count p (step last) ≡ count (λ d. p d && parent_among last d) linked) where
    round :
        (done queue : Rows)
        → Invariant m id t linked done queue
        → Invariant m id t linked (done ++ queue) (step queue)
    round done queue inv = record {
      exact = λ p.
          count-append p (done ++ queue) (step queue)
          ∙ ground (
            arith,
            inv.exact p,
            joins queue p,
            count_or (λ d. p d && parent_in id done d) (λ d. p d && parent_among queue d)
                (λ d. p d && parent_in id (done ++ queue) d) linked
                (λ d. ground (arith, parent_in-append id done queue d))
                (λ d h. apart done queue p d inv h),
          );
      higher = λ x h. found_higher done queue x inv h;
    }

    -- The directory asked for is not among what is found below it.
    IsOnce-with :
        (b : Directory) (done queue : Rows)
        → b.id ≡ id
        → Invariant m id t linked done queue
        → IsOnce ((b ∷ done) ++ queue)
    IsOnce-with b done queue is_id inv x = elim (Bool-cases (b.id == x)) [
      | inr other ↦ ground (arith, once m id t linked tree same done queue x inv)
      | inl here ↦ elim (Bool-cases (has_id x (done ++ queue))) [
        | inr out ↦ ground (arith, has_id-count x (done ++ queue))
        | inl found ↦
            let r : rank m x ≡ rank m id = ap (rank m) (sym ((==_iff b.id x).0 here) ∙ is_id) in
            let above = found_higher done queue x inv found in absurd (omega arith)
      ]
    ]

    rounds_end :
        (fuel : ℕ) (b : Directory) (done queue : Rows)
        → b.id ≡ id
        → Invariant m id t linked done queue
        → length linked ≤ length done + fuel
        → (listing : Rows) × (rounds fuel step (b ∷ done ++ queue) queue ≡ ok (b ∷ listing))
          × Invariant m id t linked listing []
    unfolding rounds
    rounds_end zero b done [] is_id inv h = (done, rw (append-nil done) refl, inv)
    rounds_end (suc fuel) b done [] is_id inv h = (done, rw (append-nil done) refl, inv)
    rounds_end zero b done (r ∷ queue) is_id inv h =
        absurd (omega (arith, slice-le m id t linked tree same done (r ∷ queue) inv))
    rounds_end (suc fuel) b done (r ∷ queue) is_id inv h =
        let next = round done (r ∷ queue) inv in
        let new : distinct (b ∷ done ++ r ∷ queue) (step (r ∷ queue)) ≡ step (r ∷ queue) =
          distinct-IsOnce (b ∷ done ++ r ∷ queue) (step (r ∷ queue))
            (IsOnce-with b (done ++ r ∷ queue) (step (r ∷ queue)) is_id next) in
        let (listing, ends, inv') =
          rounds_end fuel b (done ++ r ∷ queue) (step (r ∷ queue)) is_id next
            (omega (arith, length-append done (r ∷ queue))) in
        (
          listing,
          rounds_step fuel step (b ∷ done ++ r ∷ queue) r queue (step (r ∷ queue)) new ∙ ends,
          inv',
        )

    start : (b : Directory) → b.id ≡ id → Invariant m id t linked [] (step (b ∷ []))
    start b is_id = record {
      exact = λ p.
          joins (b ∷ []) p
          ∙ count_ext (λ d. p d && parent_among (b ∷ []) d) (λ d. p d && parent_in id [] d) linked
              (λ d. elim (Option-cases d.parent) [
                | inl top ↦ ground arith
                | inr (q, up) ↦ ground arith
              ]);
      higher = λ x h. absurd (cc);
    }

    -- From one row the query ends with that row and all linked rows below it.
    pub with_recursive_ends :
        (fuel : ℕ) (b : Directory)
        → b.id ≡ id
        → length linked ≤ fuel
        → (listing : Rows) × (with_recursive (suc fuel) (b ∷ []) step ≡ ok (b ∷ listing))
          × Invariant m id t linked listing []
    unfolding with_recursive distinct
    with_recursive_ends fuel b is_id h =
        let first = start b is_id in
        let new : distinct (b ∷ []) (step (b ∷ [])) ≡ step (b ∷ []) =
          distinct-IsOnce (b ∷ []) (step (b ∷ [])) (IsOnce-with b [] (step (b ∷ [])) is_id first) in
        let (listing, ends, inv) = rounds_end fuel b [] (step (b ∷ [])) is_id first (omega arith) in
        (listing, rounds_step fuel step (b ∷ []) b [] (step (b ∷ [])) new ∙ ends, inv)
