-- ===== src/Syscall/Empties.antt =====
-- How `do_pages_move` (arm64_files/migrate.c) leaves its list of isolated pages.
use memory_migration_cs.Base.{
  ℕ, zero, suc, ◌+◌, ◌==◌, Bool, true, false, Option, none, some, List, [], ◌∷◌, ◌≡◌, refl,
  if◌then◌else◌, sym, subst,
}
use memory_migration_cs.Batch.{Page}
use memory_migration_cs.Batch.Driver.{Batch, Verdict, count, error}
use memory_migration_cs.Batch.Counts.{IsMover}
use memory_migration_cs.Batch.Outcome.{migrate_pages-verdict}
use memory_migration_cs.Batch.Rounds.{SplitsToBase, migrate_pages-returns}
use memory_migration_cs.Syscall.{
  Status, Request, MoveKernel, Added, queued, on_target, not_added, store_status, put_back_rest,
  after_migrate_pages, do_move_pages_to_node, add_page_for_migration, failed, on_node,
}
use memory_migration_cs.Syscall.Loop.{
  after_move, move_listed, move_pages_and_store_status, keep_error, out_flush, read_request,
  if_moved, account_one, report, reported, after_add, add_step, at_node, one_page, move_loop,
  do_pages_move,
}

-- The call has returned, and no page is left on its list.
abbrev pub Emptied : {W : Type 0} → Option (Verdict × Request W) → Type 0
Emptied none = ⊥
Emptied (some (v, s)) = s.pagelist ≡ []

module _ {W : Type 0} (k : MoveKernel W) where
  put_back_rest_empty :
      (s : Request W) (v : Verdict) (b : Batch W)
      → (v ≡ count 0 → b.from ≡ [])
      → (put_back_rest k s v b).pagelist ≡ []
  put_back_rest_empty s (count zero) b h = h refl
  put_back_rest_empty s (count (suc n)) b h = refl
  put_back_rest_empty s (error e) b h = refl

  Emptied-after_move :
      (target : Option ℕ) (i nr : ℕ) (o : Option (Verdict × Request W))
      → Emptied o
      → Emptied (after_move k target i nr o)
  Emptied-after_move target i nr none h = absurd h
  Emptied-after_move target i nr (some (count zero, s)) h = h
  Emptied-after_move target i nr (some (count (suc n), s)) h = h
  Emptied-after_move target i nr (some (error e, s)) h = h

  Emptied-keep_error :
      (v : Verdict) (o : Option (Verdict × Request W)) → Emptied o → Emptied (keep_error k v o)
  Emptied-keep_error v none h = absurd h
  Emptied-keep_error (count n) (some r) h = h
  Emptied-keep_error (error e) (some r) h = h

  Emptied-if_moved :
      (leave : Verdict → Verdict) (next : Request W → Option (Verdict × Request W))
      (o : Option (Verdict × Request W))
      → ((s : Request W) → Emptied (next s))
      → Emptied o
      → Emptied (if_moved k leave next o)
  Emptied-if_moved leave next none g h = absurd h
  Emptied-if_moved leave next (some (count zero, s)) g h = g s
  Emptied-if_moved leave next (some (count (suc n), s)) g h = h
  Emptied-if_moved leave next (some (error e, s)) g h = h

module _ {W : Type 0} (k : MoveKernel W) (places : (node : Option ℕ) → IsMover (k.mover node))
    (splits : (node : Option ℕ) → SplitsToBase (k.mover node)) where
  Emptied-do_move_pages_to_node :
      (s : Request W) (target : Option ℕ) → Emptied (do_move_pages_to_node k s target)
  unfolding do_move_pages_to_node
  Emptied-do_move_pages_to_node s target =
      let (b, e) =
        migrate_pages-returns (k.mover target) (splits target) false s.pagelist s.world in
      let told =
        migrate_pages-verdict (k.mover target) false (places target) s.pagelist s.world b e in
      subst (λ (o : Option (Batch W)). Emptied (after_migrate_pages k s o)) (sym e)
        (put_back_rest_empty k s b.rc b told.zero_left)

  Emptied-move_pages_and_store_status :
      (target : Option ℕ) (i nr : ℕ) (s : Request W)
      → Emptied (move_pages_and_store_status k target i nr s)
  unfolding move_pages_and_store_status
  Emptied-move_pages_and_store_status target i nr s = listed s.pagelist refl
    where
      listed : (ps : List Page) → s.pagelist ≡ ps → Emptied (move_listed k target i nr s ps)
      listed [] e = e
      listed (p ∷ ps) e =
          Emptied-after_move k target i nr (do_move_pages_to_node k s target)
            (Emptied-do_move_pages_to_node s target)

  Emptied-out_flush : (i nr : ℕ) (v : Verdict) (s : Request W) → Emptied (out_flush k i nr v s)
  unfolding out_flush
  Emptied-out_flush i nr v s =
      Emptied-keep_error k v (move_pages_and_store_status k s.current_node i nr s)
        (Emptied-move_pages_and_store_status s.current_node i nr s)

  module _ (i nr : ℕ) (next : Request W → Option (Verdict × Request W))
      (go_on : (s : Request W) → Emptied (next s)) where
    Emptied-report :
        (node : ℕ) (s : Request W) (r : Verdict × (ℕ → Status))
        → Emptied
            (report k (move_pages_and_store_status k (some node) i nr) (out_flush k i nr) next s r)
    Emptied-report node s (error e, st) =
        Emptied-out_flush i nr (error e) (record s { status = st })
    Emptied-report node s (count n, st) =
        Emptied-if_moved k (account_one k) (λ t. next (record t { current_node = none }))
          (move_pages_and_store_status k (some node) i nr (record s { status = st }))
          (λ t. go_on (record t { current_node = none }))
          (Emptied-move_pages_and_store_status (some node) i nr (record s { status = st }))

    Emptied-after_add : (node : ℕ) (r : Added × Request W) → Emptied (after_add k i nr node next r)
    Emptied-after_add node (queued, s) = go_on s
    Emptied-after_add node (on_target, s) =
        Emptied-report node s (store_status k.can_put s.status i (on_node node) 1)
    Emptied-after_add node (not_added e, s) =
        Emptied-report node s (store_status k.can_put s.status i (failed (reported k e)) 1)

    Emptied-add_step :
        (all : Bool) (addr node : ℕ) (s : Request W)
        → Emptied (add_step k all i nr addr node next s)
    Emptied-add_step all addr node s =
        Emptied-after_add node (add_page_for_migration k s addr node all)

    Emptied-at_node :
        (all : Bool) (addr node : ℕ) (s : Request W) (current : Option ℕ)
        → Emptied (at_node k all i nr addr node next s current)
    Emptied-at_node all addr node s none =
        Emptied-add_step all addr node (record s { current_node = some node; start = i })
    Emptied-at_node all addr node s (some c) = same_node (c == node)
      where
        same_node :
            (b : Bool)
            → Emptied (
                if b
                then add_step k all i nr addr node next s
                else if_moved k
                    (λ v. v)
                    (λ t.
                      add_step k all i nr addr node next
                        (record t { current_node = some node; start = i }))
                    (move_pages_and_store_status k (some c) i nr s))
        same_node true = Emptied-add_step all addr node s
        same_node false =
            Emptied-if_moved k (λ v. v)
              (λ t.
                add_step k all i nr addr node next
                  (record t { current_node = some node; start = i }))
              (move_pages_and_store_status k (some c) i nr s)
              (λ t.
                Emptied-add_step all addr node (record t { current_node = some node; start = i }))
              (Emptied-move_pages_and_store_status (some c) i nr s)

    Emptied-one_page :
        (all : Bool) (s : Request W) (r : Verdict × Option (ℕ × ℕ))
        → Emptied (one_page k all i nr next s r)
    Emptied-one_page all s (v, none) = Emptied-out_flush i nr v s
    Emptied-one_page all s (v, some (addr, node)) = Emptied-at_node all addr node s s.current_node

  Emptied-move_loop :
      (all : Bool) (left i nr : ℕ) (s : Request W) → Emptied (move_loop k all left i nr s)
  unfolding move_loop
  Emptied-move_loop all zero i nr s = Emptied-out_flush i nr (count 0) s
  Emptied-move_loop all (suc left) i nr s =
      Emptied-one_page i nr (move_loop k all left (i + 1) nr)
        (λ t. Emptied-move_loop all left (i + 1) nr t) all s (read_request k i)

-- `do_pages_move` returns, and leaves no page behind that it has isolated: on every way out, a
-- fault of the user's arrays and a failed migration included, its list is empty. This relies on
-- single moves that place a page as `migrate_pages` expects and on splits into base pages.
pub do_pages_move-Emptied :
    {W : Type 0} (k : MoveKernel W)
    → ((node : Option ℕ) → IsMover (k.mover node))
    → ((node : Option ℕ) → SplitsToBase (k.mover node))
    → (migrate_all : Bool) (nr_pages : ℕ) (status : ℕ → Status) (w : W)
    → Emptied (do_pages_move k migrate_all nr_pages status w)
unfolding do_pages_move
do_pages_move-Emptied k places splits migrate_all nr_pages status w =
    Emptied-move_loop k places splits migrate_all nr_pages 0 nr_pages _
