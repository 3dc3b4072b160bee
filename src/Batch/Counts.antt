-- ===== src/Batch/Counts.antt =====
-- What the counters of `migrate_pages` (arm64_files/migrate.c) say of its lists: in the round that
-- counts, each page that stays, fails or is split is counted once.
use memory_migration_cs.Base.{
  ℕ, zero, suc, ◌+◌, ◌-◌, ltb, ◌≤◌, Bool, true, false, ◌&&◌, not, Option, none, some, List, [], ◌∷◌,
  ◌++◌, ◌≡◌, refl, length, length-append, Errno, eagain, enosys, enomem, arith, inl, inr,
  Option-cases, Bool-cases, if◌then◌else◌, ◌==◌,
}
use memory_migration_cs.Batch.{
  Page, is_thp, is_hugetlb, Attempt, released, stays, returned, Mover, Lists, Counters, Progress,
  Stepped, place_kept, place_ret, place_gone, place_split, try_split_thp, split_or, on_error,
  on_attempt, try_page, run_pass, run_passes, begin_pass, after_pass,
}

-- The interface of a single page's move: a page stays on its list only to be retried or when its
-- move was refused early (-ENOSYS, -ENOMEM), and a page that is to be retried has not been moved.
abbrev pub StaysFor : Errno → Type 0
StaysFor eagain = Unit
StaysFor enosys = Unit
StaysFor enomem = Unit
StaysFor e = ⊥

abbrev pub ReturnsFor : Errno → Type 0
ReturnsFor eagain = ⊥
ReturnsFor e = Unit

abbrev pub IsPlaced : {W : Type 0} → Attempt W → Type 0
IsPlaced (released w) = Unit
IsPlaced (stays e w) = StaysFor e
IsPlaced (returned e w) = ReturnsFor e

abbrev pub PlacedFor : Bool → Errno → Type 0
PlacedFor true e = ReturnsFor e
PlacedFor false e = StaysFor e

pub record IsMover {W : Type 0} (m : Mover W) : Type 0 where
  pub places : (w : W) (p : Page) (force : Bool) → IsPlaced (m.unmap_and_move w p force)
  pub places_huge :
      (w : W) (p : Page) (force : Bool) → IsPlaced (m.unmap_and_move_huge_page w p force)

-- Failures and splits, as they are counted in the first round.
pub record IsCounted (l : Lists) (c : Counters) : Type 0 where
  pub failures : c.nr_failed + c.nr_thp_failed ≡ length l.ret + c.nr_thp_split
  pub splits_failed : c.nr_thp_split ≤ c.nr_thp_failed
  pub splits_queued : c.nr_thp_split ≤ length l.split_pages
  pub queued_split : c.nr_thp_split ≡ 0 → length l.split_pages ≡ 0

-- Besides, each page kept is to be retried.
pub record IsSettled (l : Lists) (c : Counters) : Type 0 where
  pub counted : IsCounted l c
  pub retries : c.retry + c.thp_retry ≡ length l.kept

abbrev pub Settled : {W : Type 0} → Progress W → Type 0
Settled s = IsSettled s.lists s.counters

-- A case of the switch keeps the counts, unless it leaves the loop.
abbrev pub Keeps : {W : Type 0} → Progress W → Stepped W → Type 0
Keeps s r = Settled s → r.1 ≡ false → Settled r.0

-- The same for what a case makes of a progress whose failure it has counted already, with one more
-- failure than pages placed.
abbrev OneMoreFailed : Lists → Counters → Bool → Type 0
OneMoreFailed l c thp =
    (c.nr_failed + c.nr_thp_failed ≡ length l.ret + c.nr_thp_split + 1)
    × (thp ≡ true → suc c.nr_thp_split ≤ c.nr_thp_failed)
    × (c.nr_thp_split ≤ c.nr_thp_failed)
    × (c.nr_thp_split ≤ length l.split_pages)
    × (c.nr_thp_split ≡ 0 → length l.split_pages ≡ 0)
    × (c.retry + c.thp_retry ≡ length l.kept)

-- A split queues at least one page.
place_split-lengths :
    (head : Page) (tails : List Page) (l : Lists)
    → let l' = place_split head tails l in
      (length l'.split_pages ≡ length l.split_pages + length tails + 1)
      × (length l'.ret ≡ length l.ret)
      × (length l'.kept ≡ length l.kept)
unfolding place_split
place_split-lengths head tails l = (
  omega (
    arith,
    length-append {0} l.split_pages (tails ++ (head ∷ [])),
    length-append {0} tails (head ∷ []),
  ),
  refl,
  refl,
)

place_ret-lengths :
    (p : Page) (l : Lists)
    → let l' = place_ret p l in
      (length l'.ret ≡ length l.ret + 1)
      × (length l'.split_pages ≡ length l.split_pages)
      × (length l'.kept ≡ length l.kept)
unfolding place_ret
place_ret-lengths p l = (length-append l.ret (p ∷ []), refl, refl)

place_kept-lengths :
    (p : Page) (l : Lists)
    → let l' = place_kept p l in
      (length l'.kept ≡ length l.kept + 1)
      × (length l'.split_pages ≡ length l.split_pages)
      × (length l'.ret ≡ length l.ret)
unfolding place_kept
place_kept-lengths p l = (length-append l.kept (p ∷ []), refl, refl)

place_gone-lengths :
    (p : Page) (l : Lists)
    → let l' = place_gone p l in
      (length l'.kept ≡ length l.kept)
      × (length l'.split_pages ≡ length l.split_pages)
      × (length l'.ret ≡ length l.ret)
unfolding place_gone
place_gone-lengths p l = (refl, refl, refl)

some_is_not_none : (ps : List Page) → some ps ≡ none → ⊥
some_is_not_none ps h = cc

IsPlaced-choice :
    {W : Type 0} (a b : Attempt W) (c : Bool)
    → IsPlaced a
    → IsPlaced b
    → IsPlaced (if c then a else b)
IsPlaced-choice a b true h k = h
IsPlaced-choice a b false h k = k

module _ {W : Type 0} (m : Mover W) where
  keeps-split_or :
      (may thp : Bool) (p : Page) (s : Progress W) (otherwise : Progress W → Stepped W)
      → (may ≡ true → thp ≡ true)
      → OneMoreFailed s.lists s.counters thp
      → ((w : W)
          → (otherwise (record s { world = w })).1 ≡ false
          → Settled (otherwise (record s { world = w })).0)
      → (split_or m may p s otherwise).1 ≡ false
      → Settled (split_or m may p s otherwise).0
  unfolding split_or try_split_thp
  keeps-split_or false thp p s otherwise t h o f = o s.world f
  keeps-split_or true thp p s otherwise t h o f = elim (Option-cases (m.split s.world p).1) [
    | inl e ↦
        rw (e, split_or, try_split_thp)
          (o (m.split s.world p).0 (rw (e, split_or, try_split_thp) at f))
    | inr ((head, tails), e) ↦
        rw (e, split_or, try_split_thp)
          (ground (arith, place_split-lengths head tails s.lists, t refl, h.1 (t refl)))
  ]

  keeps-on_error :
      (nosplit moved : Bool) (e : Errno) (p : Page) (s : Progress W)
      → PlacedFor moved e
      → Settled s
      → (on_error m nosplit false moved e p s).1 ≡ false
      → Settled (on_error m nosplit false moved e p s).0
  unfolding on_error
  keeps-on_error nosplit true eagain p s r h f = absurd r
  keeps-on_error nosplit false eagain p s r h f = ground (arith, place_kept-lengths p s.lists)
  keeps-on_error nosplit moved enosys p s r h f =
      keeps-split_or (is_thp p.kind) (is_thp p.kind) p _ _ (λ t. t) (ground arith)
        (λ w g. ground (arith, place_ret-lengths p s.lists)) f
  keeps-on_error nosplit moved enomem p s r h f =
      keeps-split_or (is_thp p.kind && not nosplit) (is_thp p.kind) p _ _ (λ t. ground arith)
        (ground arith) (λ w g. cc) f
  keeps-on_error nosplit true e p s r h f = ground (arith, place_ret-lengths p s.lists)
  keeps-on_error nosplit false e p s r h f = absurd r

  keeps-on_attempt :
      (nosplit : Bool) (a : Attempt W) (p : Page) (s : Progress W)
      → IsPlaced a
      → Settled s
      → (on_attempt m nosplit false a p s).1 ≡ false
      → Settled (on_attempt m nosplit false a p s).0
  unfolding on_attempt
  keeps-on_attempt nosplit (released w) p s r h f = ground (arith, place_gone-lengths p s.lists)
  keeps-on_attempt nosplit (stays e w) p s r h f =
      keeps-on_error nosplit false e p (record s { world = w }) r (ground arith) f
  keeps-on_attempt nosplit (returned e w) p s r h f =
      keeps-on_error nosplit true e p (record s { world = w }) r (ground arith) f

  keeps-try_page :
      IsMover m
      → (nosplit force : Bool) (p : Page) (s : Progress W) → Settled s
      → (try_page m nosplit false force p s).1 ≡ false
      → Settled (try_page m nosplit false force p s).0
  unfolding try_page
  keeps-try_page ok nosplit force p s h f =
      keeps-on_attempt nosplit
        (if is_hugetlb p.kind
          then m.unmap_and_move_huge_page s.world p force
          else m.unmap_and_move s.world p force)
        p s
        (IsPlaced-choice _ _ (is_hugetlb p.kind) (ok.places_huge s.world p force)
          (ok.places s.world p force))
        h f

  keeps-run_pass :
      IsMover m
      → (nosplit force : Bool) (ps : List Page) (s : Progress W) → Settled s
      → (run_pass m nosplit false force ps s).1 ≡ none
      → Settled (run_pass m nosplit false force ps s).0
  unfolding run_pass
  keeps-run_pass ok nosplit force [] s h f = h
  keeps-run_pass ok nosplit force (p ∷ ps) s h f =
      elim (Bool-cases (try_page m nosplit false force p s).1) [
        | inl e ↦ absurd (some_is_not_none ps (rw (e, run_pass) at f))
        | inr e ↦
            rw (e, run_pass)
              (keeps-run_pass ok nosplit force ps (try_page m nosplit false force p s).0
                (keeps-try_page ok nosplit force p s h e) (rw (e, run_pass) at f))
      ]

  keeps-after_pass :
      (next : Progress W → Progress W × Option (List Page)) (s : Progress W)
      (stop : Option (List Page))
      → (stop ≡ none → Settled s)
      → ((t : Progress W) → Settled t → (next t).1 ≡ none → Settled (next t).0)
      → (after_pass next (s, stop)).1 ≡ none
      → Settled (after_pass next (s, stop)).0
  unfolding after_pass
  keeps-after_pass next s (some rest) h n f = absurd (some_is_not_none rest f)
  keeps-after_pass next s none h n f = n s (h refl) f

  -- A pass begins with nothing kept and nothing to be retried.
  Settled-begin_pass : (s : Progress W) → IsCounted s.lists s.counters → Settled (begin_pass s)
  Settled-begin_pass s h = ground arith

  -- The passes of a round, of which the first is made if anything is to be retried.
  pub keeps-run_passes :
      IsMover m
      → (nosplit : Bool) (left : ℕ) (s : Progress W) → IsCounted s.lists s.counters
      → (left ≡ 0 → Settled s)
      → ((s.counters.retry == 0 && s.counters.thp_retry == 0) ≡ true → Settled s)
      → (run_passes m nosplit false left s).1 ≡ none
      → Settled (run_passes m nosplit false left s).0
  unfolding run_passes
  keeps-run_passes ok nosplit zero s c h d f = h refl
  keeps-run_passes ok nosplit (suc left) s c h d f =
      elim (Bool-cases (s.counters.retry == 0 && s.counters.thp_retry == 0)) [
        | inl e ↦ rw (e, run_passes) (d e)
        | inr e ↦
            rw (e, run_passes)
              (keeps-after_pass (run_passes m nosplit false left) _ _
                (keeps-run_pass ok nosplit (ltb 2 (10 - suc left)) s.lists.kept (begin_pass s)
                  (Settled-begin_pass s c))
                (λ t k. keeps-run_passes ok nosplit left t k.counted (λ z. k) (λ z. k))
                (rw (e, run_passes) at f))
      ]
