-- ===== src/Syscall/Collects.antt =====
-- How far the statuses stand while `do_pages_move` (arm64_files/migrate.c) collects pages, and what
-- a move of the pages collected makes of them.
use memory_migration_cs.Base.{
  ℕ, zero, suc, ◌+◌, ◌-◌, ◌%◌, ◌^◌, length, length-append, ◌≤◌, ◌<◌, ◌==◌, leb, ltb, ◌&&◌, Bool,
  true, false, not, Option, none, some, List, [], ◌∷◌, ◌≡◌, ◌⊎◌, ◌≢◌, inl, inr, refl, if◌then◌else◌,
  ◌++◌, sym, ap, ◌∙◌, subst, Errno, update, arith, Bool-cases,
}
use memory_migration_cs.Batch.{Page, is_hugetlb}
use memory_migration_cs.Batch.Driver.{Batch, Verdict, count, error}
use memory_migration_cs.Batch.Outcome.{IsTold}
use memory_migration_cs.Syscall.{
  Status, Request, MoveKernel, Added, queued, on_target, not_added, store_status,
  after_migrate_pages, put_back_rest, failed, on_node, isolated, add_found, bad_vma, lookup_error,
  no_page, found, Lookup,
}
use memory_migration_cs.Syscall.Loop.{after_move, keep_error}

-- A successful `store_status` has written its entries, and no others.
store_status_lem :
    (can_put : ℕ → Bool) (st : ℕ → Status) (start : ℕ) (v : Status) (nr j : ℕ)
    → (store_status can_put st start v nr).0 ≡ count 0
    → (store_status can_put st start v nr).1 j
      ≡ (if leb start j && ltb j (start + nr) then v else st j)
unfolding store_status
store_status_lem can_put st start v zero j h = ground arith
store_status_lem can_put st start v (suc nr) j h =
    ground (arith, store_status_lem can_put (update st start v) (start + 1) v nr j)

store_status-count :
    (can_put : ℕ → Bool) (st : ℕ → Status) (start : ℕ) (v : Status) (nr n : ℕ)
    → (store_status can_put st start v nr).0 ≡ count n
    → n ≡ 0
unfolding store_status
store_status-count can_put st start v zero n h = ground arith
store_status-count can_put st start v (suc nr) n h =
    ground (arith, store_status-count can_put (update st start v) (start + 1) v nr n)

-- The status of page `j`: the node that was asked for, or an error.
abbrev pub Stated : {W : Type 0} → MoveKernel W → ℕ → Status → Type 0
Stated k j v =
    (n : ℕ) × (k.node_at j ≡ some (some n)) × ((v ≡ on_node n) ⊎ ((e : Errno) × (v ≡ failed e)))

module _ {W : Type 0} (k : MoveKernel W) (nr : ℕ) where
  abbrev pub Upto : ℕ → (ℕ → Status) → Type 0
  Upto i st = (j : ℕ) → j < i → Stated k j (st j)

  -- How far the statuses stand in front of page `i`, with the node that is being collected for.
  abbrev pub Collects : ℕ → Request W → Option ℕ → Type 0
  Collects i s none = Upto i s.status × (s.pagelist ≡ [])
  Collects i s (some c) =
      Upto s.start s.status
      × ((j : ℕ) → s.start ≤ j → j < i → k.node_at j ≡ some (some c))
      × (s.start ≤ i)
      × (s.pagelist ≡ [] → s.start ≡ i)
      × (length s.pagelist ≤ i)

  -- A return of 0 from a move in front of page `i`, and what a positive one counts.
  abbrev pub Moved : ℕ → (ℕ → Status) → Option (Verdict × Request W) → Type 0
  Moved i st none = Unit
  Moved i st (some (count n, t)) =
      (n ≡ 0 → Upto i t.status × (t.pagelist ≡ []) × ((j : ℕ) → i ≤ j → t.status j ≡ st j))
      × (n ≢ 0 → (nr - i < n) × (n < 2 ^ 31))
  Moved i st (some (error e, t)) = Unit

  abbrev pub Ends : Option (Verdict × Request W) → Type 0
  Ends none = Unit
  Ends (some (count n, t)) = n ≡ 0 → Upto nr t.status
  Ends (some (error e, t)) = Unit

  -- The statuses and the start stay, and after a return of 0 the list is empty.
  abbrev pub Tried : Request W → Option (Verdict × Request W) → Type 0
  Tried s none = Unit
  Tried s (some (v, t)) =
      (t.status ≡ s.status) × (t.start ≡ s.start) × (v ≡ count 0 → t.pagelist ≡ [])

  Tried-put_back_rest :
      (s : Request W) (v : Verdict) (b : Batch W)
      → (v ≡ count 0 → b.from ≡ [])
      → Tried s (some (v, put_back_rest k s v b))
  Tried-put_back_rest s (count zero) b h = (refl, refl, h)
  Tried-put_back_rest s (count (suc n)) b h = (refl, refl, λ e. refl)
  Tried-put_back_rest s (error e) b h = (refl, refl, λ e. refl)

  pub Tried-after_migrate_pages :
      (s : Request W) (o : Option (Batch W))
      → ((b : Batch W) → o ≡ some b → IsTold b)
      → Tried s (after_migrate_pages k s o)
  Tried-after_migrate_pages s none h = tt
  Tried-after_migrate_pages s (some b) h = Tried-put_back_rest s b.rc b (h b refl).zero_left

  -- The statuses of the pages that were collected for node `c` and moved.
  Upto-store_status :
      (c i : ℕ) (s s' : Request W)
      → Tried s (some (count 0, s'))
      → Collects i s (some c)
      → (n : ℕ) → (store_status k.can_put s'.status s'.start (on_node c) (i - s'.start)).0 ≡ count n
      → let t = record s' {
        status = (store_status k.can_put s'.status s'.start (on_node c) (i - s'.start)).1;
      } in
        Moved i s.status (some (count n, t))
  Upto-store_status c i s s' (same, from, empty) h n q = (
    λ z. (λ j l. stated z j l, empty refl, λ j l. ground (arith, written z j, h)),
    λ z. absurd (z none_more),
  )
    where
      none_more : n ≡ 0
      none_more = store_status-count k.can_put s'.status s'.start (on_node c) (i - s'.start) n q

      written :
          n ≡ 0
          → (j : ℕ)
          → (store_status k.can_put s'.status s'.start (on_node c) (i - s'.start)).1 j
            ≡ (if leb s.start j && ltb j i then on_node c else s.status j)
      written z j =
          let done =
            store_status_lem k.can_put s'.status s'.start (on_node c) (i - s'.start) j
              (q ∙ ap count z) in
          ground (arith, done, same_at j, h.2)
        where
          same_at : (j : ℕ) → s'.status j ≡ s.status j
          same_at j = ap (λ (f : ℕ → Status). f j) same

      stated :
          n ≡ 0
          → (j : ℕ) → j < i
          → Stated k j ((store_status k.can_put s'.status s'.start (on_node c) (i - s'.start)).1 j)
      stated z j l = elim (Bool-cases (leb s.start j)) [
        | inl in_range ↦ (c, h.1 j (ground arith) l, inl (written z j ∙ ground arith))
        | inr before ↦
            let kept : (if leb s.start j && ltb j i then on_node c else s.status j) ≡ s.status j =
              ground arith in
            subst (Stated k j) (sym (written z j ∙ kept)) (h.0 j (ground arith))
      ]

  pub Moved-after_move :
      (c i : ℕ) (s : Request W) (o : Option (Verdict × Request W))
      → Tried s o
      → Collects i s (some c)
      → ((n : ℕ) (t : Request W) → o ≡ some (count n, t) → n + nr < 2 ^ 31)
      → Moved i s.status (after_move k (some c) i nr o)
  Moved-after_move c i s none t h fits = tt
  Moved-after_move c i s (some (error e, s')) t h fits = tt
  Moved-after_move c i s (some (count (suc n), s')) t h fits =
      let small : suc n + (nr - i) < 2 ^ 31 = omega (arith, fits (suc n) s' refl) in
      let same : (suc n + (nr - i)) % 2 ^ 32 ≡ suc n + (nr - i) = omega (arith, small) in
      (λ z. absurd (omega (arith, z, same)), λ z. (omega (arith, same), omega (arith, same, small)))
  Moved-after_move c i s (some (count zero, s')) t h fits =
      stored (store_status k.can_put s'.status s'.start (on_node c) (i - s'.start)).0 refl
    where
      stored :
          (v : Verdict)
          → (store_status k.can_put s'.status s'.start (on_node c) (i - s'.start)).0 ≡ v
          → Moved i s.status (
              some (
                v,
                record s' {
                  status = (store_status k.can_put s'.status s'.start (on_node c) (i - s'.start)).1;
                },
              ))
      stored (error e) q = tt
      stored (count n) q = Upto-store_status c i s s' t h n q

  -- An early error stays the return value.
  pub Ends-keep_error :
      (e : Errno) (o : Option (Verdict × Request W)) → Ends (keep_error k (error e) o)
  Ends-keep_error e none = tt
  Ends-keep_error e (some (v, t)) = tt

  -- What `add_page_for_migration` makes of the request: a queued page is on the list.
  abbrev pub Framed : Request W → Request W → Type 0
  Framed s t = (t.status ≡ s.status) × (t.start ≡ s.start) × (t.current_node ≡ s.current_node)

  abbrev pub Adds : Request W → Added × Request W → Type 0
  Adds s (queued, t) = Framed s t × (t.pagelist ≢ []) × (length t.pagelist ≡ length s.pagelist + 1)
  Adds s (on_target, t) = Framed s t × (t.pagelist ≡ s.pagelist)
  Adds s (not_added e, t) = Framed s t × (t.pagelist ≡ s.pagelist)

  Adds-if :
      (s : Request W) (b : Bool) (x y : Added × Request W)
      → Adds s x
      → Adds s y
      → Adds s (if b then x else y)
  Adds-if s true x y h g = h
  Adds-if s false x y h g = g

  append_one-ne-nil : (ps : List Page) (p : Page) → (ps ++ (p ∷ [])) ≢ []
  append_one-ne-nil [] p e = cc
  append_one-ne-nil (q ∷ ps) p e = cc

  Adds-isolated : (s : Request W) (p : Page) (r : W × Option Errno) → Adds s (isolated k s p r)
  Adds-isolated s p (w, none) =
      ((refl, refl, refl), append_one-ne-nil s.pagelist p, length-append s.pagelist (p ∷ []))
  Adds-isolated s p (w, some e) = ((refl, refl, refl), refl)

  pub Adds-add_found :
      (s : Request W) (node : ℕ) (all : Bool) (l : Lookup) → Adds s (add_found k s node all l)
  Adds-add_found s node all bad_vma = ((refl, refl, refl), refl)
  Adds-add_found s node all (lookup_error e) = ((refl, refl, refl), refl)
  Adds-add_found s node all no_page = ((refl, refl, refl), refl)
  Adds-add_found s node all (found f) =
      Adds-if s f.zone_device _ _ ((refl, refl, refl), refl)
        (Adds-if s (f.nid == node) _ _ ((refl, refl, refl), refl)
          (Adds-if s (ltb 1 f.mapcount && not all) _ _ ((refl, refl, refl), refl)
            (Adds-if s (is_hugetlb f.page.kind) _ _
              (Adds-if s f.is_head _ _ (Adds-isolated s f.page _) ((refl, refl, refl), refl))
              (Adds-isolated s f.page _))))

  pub Collects-Framed :
      (c i : ℕ) (s t : Request W)
      → Framed s t
      → (t.pagelist ≡ [] → s.pagelist ≡ [])
      → length t.pagelist ≤ i
      → Collects i s (some c)
      → Collects i t (some c)
  Collects-Framed c i s t (st, sa, cu) p l h = (
    subst (Upto t.start) (sym st) (subst (λ (x : ℕ). Upto x s.status) (sym sa) h.0),
    λ j a b. h.1 j (omega (arith, sa)) b,
    omega (arith, sa, h.2),
    λ e. sa ∙ h.3 (p e),
    l,
  )
