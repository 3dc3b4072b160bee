-- ===== src/Batch.antt =====
-- arm64_files/migrate.c, lines 2335-2540: `try_split_thp` and the loop of `migrate_pages` that tries
-- the pages of a list up to ten times. The moves of single pages come in through `Mover`.
pub mod Driver
pub mod Conserve
pub mod Counts
pub mod Loop
pub mod Outcome
pub mod Rounds
pub mod Single
use memory_migration_cs.Base.{
  ℕ, zero, suc, ◌+◌, ◌-◌, Bool, true, false, ◌&&◌, not, Option, none, some, List, [], ◌∷◌, ◌++◌,
  Errno, eagain, enosys, enomem, ltb, ◌==◌, if◌then◌else◌,
}

-- What `PageHuge` and `PageTransHuge` tell apart.
pub data PageKind : Type 0 where
  base thp hugetlb : PageKind

-- A page on a migration list. `nr` is `compound_nr`, its number of base pages.
pub record Page : Type 0 where
  pub pfn : ℕ
  pub kind : PageKind
  pub nr : ℕ

abbrev pub is_thp : PageKind → Bool
is_thp thp = true
is_thp _ = false

abbrev pub is_hugetlb : PageKind → Bool
is_hugetlb hugetlb = true
is_hugetlb _ = false

-- How `unmap_and_move` and `unmap_and_move_huge_page` return: with success the page has left the
-- migration lists; with an error it stays on the list that it came from, or it has been moved to
-- the end of `ret`.
pub data Attempt (W : Type 0) : Type 0 where
  released : W → Attempt W
  stays : Errno → W → Attempt W
  returned : Errno → W → Attempt W

-- The operations that the loop calls. `split` is `split_huge_page_to_list`: on success the head
-- page as it is afterwards, and the tail pages.
pub record Mover (W : Type 0) : Type 0 where
  pub unmap_and_move : W → Page → Bool → Attempt W
  pub unmap_and_move_huge_page : W → Page → Bool → Attempt W
  pub split : W → Page → W × Option (Page × List Page)

-- The local counters of `migrate_pages`.
pub record Counters : Type 0 where
  pub retry : ℕ
  pub thp_retry : ℕ
  pub nr_failed : ℕ
  pub nr_failed_pages : ℕ
  pub nr_retry_pages : ℕ
  pub nr_succeeded : ℕ
  pub nr_thp_succeeded : ℕ
  pub nr_thp_failed : ℕ
  pub nr_thp_split : ℕ

-- The lists: the pages of `from` that this pass has left there, `ret_pages`, `thp_split_pages`,
-- and the pages that have been migrated.
pub record Lists : Type 0 where
  pub kept : List Page
  pub ret : List Page
  pub split_pages : List Page
  pub gone : List Page

pub record Progress (W : Type 0) : Type 0 where
  pub world : W
  pub lists : Lists
  pub counters : Counters

-- Where the last attempt has left the page, if nothing more is done about it.
unfoldable pub place_kept : Page → Lists → Lists
place_kept p l = record l { kept = l.kept ++ (p ∷ []) }

-- `list_move_tail(&page->lru, &ret_pages)`, or `list_add_tail` of a page taken off its list.
unfoldable pub place_ret : Page → Lists → Lists
place_ret p l = record l { ret = l.ret ++ (p ∷ []) }

unfoldable pub place_gone : Page → Lists → Lists
place_gone p l = record l { gone = l.gone ++ (p ∷ []) }

-- `split_huge_page_to_list` queues the tails, and `try_split_thp` the head behind them.
unfoldable pub place_split : Page → List Page → Lists → Lists
place_split head tails l = record l { split_pages = l.split_pages ++ (tails ++ (head ∷ [])) }

-- Where `stays` and `returned` leave the page.
abbrev pub place_failed : Bool → Page → Lists → Lists
place_failed true p l = place_ret p l
place_failed false p l = place_kept p l

-- `case -ENOSYS` and `case -ENOMEM` begin by counting the failure.
abbrev pub count_failure : Bool → Bool → Counters → Counters
count_failure true no_subpage_counting c = record c { nr_thp_failed = c.nr_thp_failed + 1 }
count_failure false true c = c
count_failure false false c = record c { nr_failed = c.nr_failed + 1 }

abbrev pub count_retry : Bool → Bool → Counters → Counters
count_retry true no_subpage_counting c = record c { thp_retry = c.thp_retry + 1 }
count_retry false true c = c
count_retry false false c = record c { retry = c.retry + 1 }

-- `!try_split_thp(page, &thp_split_pages)`: `none` is a failed split, which changes no list.
abbrev pub queue_halves : Option (Page × List Page) → Lists → Option Lists
queue_halves none l = none
queue_halves (some (head, tails)) l = some (place_split head tails l)

unfoldable pub try_split_thp : {W : Type 0} → Mover W → W → Page → Lists → W × Option Lists
unfolding place_split
try_split_thp m w p l = let (w', halves) = m.split w p in (w', queue_halves halves l)

-- The state after a switch case, and whether the case leaves the loop (`goto out`).
abbrev pub Stepped : Type 0 → Type 0
Stepped W = Progress W × Bool

-- `try_split_thp` if the page may be split, then `nr_thp_split++; break;` or the rest of the case.
unfoldable pub split_or :
    {W : Type 0} → Mover W → Bool → Page → Progress W → (Progress W → Stepped W) → Stepped W
unfolding try_split_thp
split_or m false p s otherwise = otherwise s
split_or m true p s otherwise =
    let (w', lists) = try_split_thp m s.world p s.lists in
    elim lists [
      | none ↦ otherwise (record s { world = w' })
      | some l ↦ (
        record {
          world = w';
          lists = l;
          counters = record (s.counters) { nr_thp_split = s.counters.nr_thp_split + 1 };
        },
        false,
      )
    ]

-- `nr_failed_pages += pages`, with the page placed.
abbrev pub give_up : {W : Type 0} → ℕ → Lists → Progress W → Progress W
give_up pages l s = record s {
  lists = l;
  counters = record (s.counters) { nr_failed_pages = s.counters.nr_failed_pages + pages };
}

-- The switch of `migrate_pages` at an error. `moved` says that the page stands on `ret` already.
unfoldable pub on_error :
    {W : Type 0}
    → Mover W
    → (nosplit no_subpage_counting moved : Bool) → Errno
    → Page
    → Progress W
    → Stepped W
unfolding split_or place_kept place_ret
on_error m nosplit nsc moved enosys p s =
    let counted = record s { counters = count_failure (is_thp p.kind) nsc s.counters } in
    split_or m (is_thp p.kind) p counted λ t. (give_up p.nr (place_ret p t.lists) t, false)
on_error m nosplit nsc moved enomem p s =
    let counted = record s { counters = count_failure (is_thp p.kind) nsc s.counters } in
    split_or m (is_thp p.kind && not nosplit) p counted
      λ t. (give_up (p.nr + t.counters.nr_retry_pages) (place_failed moved p t.lists) t, true)
on_error m nosplit nsc moved eagain p s =
    let c = count_retry (is_thp p.kind) nsc s.counters in
    (
      record s {
        lists = place_failed moved p s.lists;
        counters = record c { nr_retry_pages = c.nr_retry_pages + p.nr };
      },
      false,
    )
on_error m nosplit nsc moved e p s =
    let counted = record s { counters = count_failure (is_thp p.kind) nsc s.counters } in
    (give_up p.nr (place_failed moved p s.lists) counted, false)

-- `case MIGRATEPAGE_SUCCESS`.
abbrev pub on_success : {W : Type 0} → Page → Progress W → Progress W
on_success p s =
    let c = s.counters in
    record s {
      lists = place_gone p s.lists;
      counters = record c {
        nr_succeeded = c.nr_succeeded + p.nr;
        nr_thp_succeeded = if is_thp p.kind then c.nr_thp_succeeded + 1 else c.nr_thp_succeeded;
      };
    }

-- The switch over `rc`.
unfoldable pub on_attempt :
    {W : Type 0}
    → Mover W
    → (nosplit no_subpage_counting : Bool) → Attempt W
    → Page
    → Progress W
    → Stepped W
unfolding on_error place_gone
on_attempt m nosplit nsc (released w) p s = (on_success p (record s { world = w }), false)
on_attempt m nosplit nsc (stays e w) p s = on_error m nosplit nsc false e p (record s { world = w })
on_attempt m nosplit nsc (returned e w) p s =
    on_error m nosplit nsc true e p (record s { world = w })

-- The body of the loop over the list: `force` is `pass > 2`.
unfoldable pub try_page :
    {W : Type 0}
    → Mover W
    → (nosplit no_subpage_counting force : Bool) → Page
    → Progress W
    → Stepped W
unfolding on_attempt
try_page m nosplit nsc force p s =
    on_attempt m nosplit nsc
      (if is_hugetlb p.kind
        then m.unmap_and_move_huge_page s.world p force
        else m.unmap_and_move s.world p force)
      p s

-- `list_for_each_entry_safe` over what is left of `from`: the pages that a `goto out` has not
-- reached, or `none` at the end of the list.
unfoldable pub run_pass :
    {W : Type 0}
    → Mover W
    → (nosplit no_subpage_counting force : Bool) → List Page
    → Progress W
    → Progress W × Option (List Page)
unfolding try_page
run_pass m nosplit nsc force [] s = (s, none)
run_pass m nosplit nsc force (p ∷ ps) s =
    let (s', stop) = try_page m nosplit nsc force p s in
    elim stop [ true ↦ (s', some ps) | false ↦ run_pass m nosplit nsc force ps s' ]

-- The pages on `from` are taken up again, and the counters of the pass begin at 0.
abbrev pub begin_pass : {W : Type 0} → Progress W → Progress W
begin_pass s = record s {
  lists = record (s.lists) { kept = [] };
  counters = record (s.counters) { retry = 0; thp_retry = 0; nr_retry_pages = 0 };
}

unfoldable pub after_pass :
    {W : Type 0}
    → (Progress W → Progress W × Option (List Page))
    → Progress W × Option (List Page)
    → Progress W × Option (List Page)
after_pass next (s, some rest) = (s, some rest)
after_pass next (s, none) = next s

-- `pass < 10 && (retry || thp_retry)`, with `left` passes left of ten.
unfoldable pub run_passes :
    {W : Type 0}
    → Mover W
    → (nosplit no_subpage_counting : Bool) → (left : ℕ) → Progress W
    → Progress W × Option (List Page)
unfolding run_pass after_pass
run_passes m nosplit nsc zero s = (s, none)
run_passes m nosplit nsc (suc left) s = elim (s.counters.retry == 0 && s.counters.thp_retry == 0) [
  | true ↦ (s, none)
  | false ↦
      after_pass (run_passes m nosplit nsc left)
        (run_pass m nosplit nsc (ltb 2 (10 - suc left)) s.lists.kept (begin_pass s))
]
