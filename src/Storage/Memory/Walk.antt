-- ===== src/Storage/Memory/Walk.antt =====
-- getChildren of the in-memory driver: the loop over the growing slice, and its invariant.
use fertilesoil.Base.{
  ℕ, zero, suc, ◌+◌, ◌≤◌, ◌<◌, ◌≡◌, refl, sym, ◌∙◌, ap, Bool, true, false, not, ◌&&◌, ◌||◌, none,
  some, List, [], ◌∷◌, ◌++◌, ◌==◌, ltb, is_some, length, length-append, arith, Bool-cases,
  Option-cases, inl, inr, count, select, SameItems, count-append, count-select, count_ext, count_or,
  count_none, count-all, count-le-length, All-imp, ==_iff, ok, ==_self,
}
use fertilesoil.Api.{DirectoryId, Directory, has_id}
use fertilesoil.Storage.Options.{Options}
use fertilesoil.Storage.DirMap.{directory, DirMap, lookup}
use fertilesoil.Storage.Memory.Read.{is_visible}
use fertilesoil.Storage.Memory.Descendants.{children_of, descend}
use fertilesoil.Storage.Memory.Tree.{
  IsTree, rank, rank-parent, directories, directories-lookup, count-lookup_if,
}

abbrev is_child_of : DirectoryId → Directory → Bool
is_child_of id d = elim d.parent [ none ↦ false | some p ↦ p == id ]

-- The parent is the directory asked for, or among those passed.
abbrev pub parent_in : DirectoryId → List Directory → Directory → Bool
parent_in id done d = elim d.parent [ none ↦ false | some p ↦ p == id || has_id p done ]

-- The directories that getChildren links to their parents.
abbrev pub is_linked : Options → Directory → Bool
is_linked opts d = is_visible opts d && is_some d.parent

children_of-select :
    (id : DirectoryId) (ds : List Directory) → children_of id ds ≡ select (is_child_of id) ds
children_of-select id [] = refl
children_of-select id (d ∷ ds) = ground (arith, children_of-select id ds)

pub has_id-append :
    (x : DirectoryId) (ds es : List Directory) → has_id x (ds ++ es) ≡ (has_id x ds || has_id x es)
has_id-append x [] es = refl
has_id-append x (d ∷ ds) es = ground (arith, has_id-append x ds es)

pub has_id-count :
    (x : DirectoryId) (ds : List Directory) → has_id x ds ≡ ltb 0 (count (λ d. d.id == x) ds)
has_id-count x [] = refl
has_id-count x (d ∷ ds) = ground (arith, has_id-count x ds)

-- One more directory passed adds its own children.
parent_in_step :
    (id : DirectoryId) (done : List Directory) (c d : Directory)
    → parent_in id (done ++ c ∷ []) d ≡ (parent_in id done d || is_child_of c.id d)
parent_in_step id done c d = elim (Option-cases d.parent) [
  | inl top ↦ ground arith
  | inr (p, up) ↦ ground (arith, has_id-append p done (c ∷ []))
]

module _ (m : DirMap) (id : DirectoryId) (t : Directory → Bool) (linked : List Directory) where
  -- The slice holds exactly the linked directories whose parent has been passed, and what has
  -- been passed stands above the directory asked for.
  pub record Invariant (done queue : List Directory) : Type 0 where
    pub exact :
        (p : Directory → Bool)
        → count p (done ++ queue) ≡ count (λ d. p d && parent_in id done d) linked
    pub higher : (x : DirectoryId) → has_id x done ≡ true → rank m id < rank m x

  module _ (tree : IsTree m) (same : SameItems linked (select t (directories m))) where
    -- A count over the linked directories is one over those of the map.
    pub count-linked :
        (p : Directory → Bool) → count p linked ≡ count (λ d. p d && t d) (directories m)
    count-linked p = same p ∙ count-select p t (directories m)

    -- A directory whose parent has been passed stands above the directory asked for.
    passed_higher :
        (done queue : List Directory)
        → Invariant done queue
        → (d : Directory) → lookup d.id m ≡ some (directory d)
        → parent_in id done d ≡ true
        → rank m id < rank m d.id
    passed_higher done queue inv d entry h = elim (Option-cases d.parent) [
      | inl top ↦ absurd (ground arith)
      | inr (p, up) ↦ ground (arith, rank-parent m d.id d p tree entry up, inv.higher p)
    ]

    pub none_lower :
        (done queue : List Directory)
        → Invariant done queue
        → count (λ d. not (ltb (rank m id) (rank m d.id))) (done ++ queue) ≡ 0
    none_lower done queue inv =
        let passed_low =
          λ (d : Directory). not (ltb (rank m id) (rank m d.id)) && parent_in id done d && t d in
        inv.exact (λ d. not (ltb (rank m id) (rank m d.id)))
        ∙ count-linked _
        ∙ count_none passed_low (directories m) (
            All-imp _ (λ d. passed_low d ≡ false) (directories m)
              (λ d entry. ground (arith, passed_higher done queue inv d entry))
              (directories-lookup m tree))

    -- No id stands twice in the slice.
    pub once :
        (done queue : List Directory) (x : DirectoryId)
        → Invariant done queue
        → count (λ d. d.id == x) (done ++ queue) ≤ 1
    once done queue x inv =
        let found =
          inv.exact (λ d. d.id == x)
          ∙ count-linked (λ d. d.id == x && parent_in id done d)
          ∙ count_ext _ (λ d. d.id == x && (parent_in id done d && t d)) (directories m)
              (λ d. ground arith)
          ∙ count-lookup_if (λ d. parent_in id done d && t d) x m tree in
        ground arith

    next_new :
        (done queue : List Directory) (c : Directory)
        → Invariant done (c ∷ queue)
        → (rank m id < rank m c.id) × (has_id c.id done ≡ false)
    next_new done queue c inv =
        let low = λ (d : Directory). not (ltb (rank m id) (rank m d.id)) in
        let same_id = λ (d : Directory). d.id == c.id in
        ground (
          arith,
          none_lower done (c ∷ queue) inv,
          count-append low done (c ∷ queue),
          once done (c ∷ queue) c.id inv,
          count-append same_id done (c ∷ queue),
          has_id-count c.id done,
          ==_self c.id,
        )

    -- A directory counts by its own parent: among those passed before, or `c`, and never both.
    count_step :
        (done queue : List Directory) (c : Directory) (p : Directory → Bool)
        → Invariant done (c ∷ queue)
        → count (λ d. p d && parent_in id (done ++ c ∷ []) d) linked
          ≡ count (λ d. p d && parent_in id done d) linked + count p (children_of c.id linked)
    count_step done queue c p inv =
        let (above, new) = next_new done queue c inv in
        count_or (λ d. p d && parent_in id done d) (λ d. p d && is_child_of c.id d) _ linked
          (λ d. ground (arith, parent_in_step id done c d)) (λ d h. apart d above new h)
        ∙ ap (λ (n : ℕ). count (λ d. p d && parent_in id done d) linked + n)
            (sym (count-select p (is_child_of c.id) linked)
              ∙ ap (count p) (sym (children_of-select c.id linked)))
      where
        apart :
            (d : Directory)
            → rank m id < rank m c.id
            → has_id c.id done ≡ false
            → (p d && parent_in id done d) ≡ true
            → (p d && is_child_of c.id d) ≡ false
        apart d above new h = elim (Option-cases d.parent) [
          | inl top ↦ ground arith
          | inr (q, up) ↦ elim (Bool-cases (q == c.id)) [
            | inl at_c ↦
                let e : q ≡ c.id = (==_iff q c.id).0 at_c in
                elim (Bool-cases (q == id)) [
                  | inl at_id ↦
                      let f : id ≡ c.id = sym ((==_iff q id).0 at_id) ∙ e in
                      let r : rank m id ≡ rank m c.id = ap (rank m) f in absurd (omega arith)
                  | inr off ↦ ground arith
                ]
            | inr other ↦ ground arith
          ]
        ]

    step :
        (done queue : List Directory) (c : Directory)
        → Invariant done (c ∷ queue)
        → Invariant (done ++ c ∷ []) (queue ++ children_of c.id linked)
    step done queue c inv = record {
      exact = λ p. ground (
        arith,
        inv.exact p,
        count_step done queue c p inv,
        count-append p done (c ∷ queue),
        count-append p done (c ∷ []),
        count-append p queue (children_of c.id linked),
        count-append p (done ++ c ∷ []) (queue ++ children_of c.id linked),
      );
      higher = λ x h. ground (
        arith,
        has_id-append x done (c ∷ []),
        inv.higher x,
        next_new done queue c inv,
        ap (rank m) {x = c.id} {y = x},
      );
    }

    pub slice-le :
        (done queue : List Directory)
        → Invariant done queue
        → length done + length queue ≤ length linked
    slice-le done queue inv = omega (
      arith,
      inv.exact (λ d. true),
      count-all (done ++ queue),
      length-append done queue,
      count-le-length (λ d. true && parent_in id done d) linked,
    )

    -- With a round for each linked directory the loop ends.
    pub descend_ends :
        (fuel : ℕ) (done queue : List Directory)
        → Invariant done queue
        → length linked ≤ length done + fuel
        → (listing : List Directory) × (descend fuel linked done queue ≡ ok listing)
          × Invariant listing []
    unfolding descend
    descend_ends zero done [] inv h = (done, refl, inv)
    descend_ends (suc fuel) done [] inv h = (done, refl, inv)
    descend_ends zero done (c ∷ queue) inv h = absurd (omega (arith, slice-le done (c ∷ queue) inv))
    descend_ends (suc fuel) done (c ∷ queue) inv h =
        descend_ends fuel (done ++ c ∷ []) (queue ++ children_of c.id linked)
          (step done queue c inv) (omega (arith, length-append done (c ∷ [])))

    pub start : Invariant [] (children_of id linked)
    start = record {
      exact = λ p.
          ap (count p) (children_of-select id linked)
          ∙ count-select p (is_child_of id) linked
          ∙ count_ext _ _ linked (λ d. elim (Option-cases d.parent) [
            | inl top ↦ ground arith
            | inr (q, up) ↦ ground arith
          ]);
      higher = λ x h. absurd (cc);
    }
