-- ===== src/Folio/Isolate.antt =====
-- arm64_files/migrate.c, lines 376-483: `isolate_movable_page` and `putback_movable_pages`.
use memory_migration_cs.Base.{
  ℕ, ◌+◌, ◌-◌, ◌==◌, Bool, true, false, ◌||◌, not, List, [], ◌∷◌, ◌≡◌, ◌⊎◌, inl, inr, if◌then◌else◌,
  Rc, success, fail, ebusy, arith, refl, ap, sym, ◌∙◌,
}
use memory_migration_cs.Folio.{Folio}

-- The operations of a movable page, the test `PageMovable` (which asks its driver too), and the
-- put-back of the other kinds of pages.
pub record Movable : Type 0 where
  pub page_movable : Folio → Bool
  pub isolate_page : Folio → Bool × Folio
  pub putback_page : Folio → Folio
  pub putback_active_hugepage : Folio → Folio
  pub putback_lru_page : Folio → Folio

abbrev pub get_page : Folio → Folio
get_page f = record f { refcount = f.refcount + 1 }

abbrev pub put_page : Folio → Folio
put_page f = record f { refcount = f.refcount - 1 }

abbrev pub set_locked : Bool → Folio → Folio
set_locked b f = record f { locked = b }

abbrev pub after_isolate_page : Bool × Folio → Rc × Folio
after_isolate_page (false, f) = (fail ebusy, put_page (set_locked false f))
after_isolate_page (true, f) = (success, set_locked false (record f { isolated = true }))

-- `isolate_movable_page`. A page with no reference is being freed.
unfoldable pub isolate_movable_page : Movable → Folio → Rc × Folio
isolate_movable_page o f =
    let got = get_page f in
    let held = set_locked true got in
    if f.refcount == 0
    then (fail ebusy, f)
    else if not got.movable
    then (fail ebusy, put_page got)
    else if got.locked
    then (fail ebusy, put_page got)
    else if not (o.page_movable held) || held.isolated
    then (fail ebusy, put_page (set_locked false held))
    else after_isolate_page (o.isolate_page held)

-- `putback_movable_page`.
unfoldable pub putback_movable_page : Movable → Folio → Folio
putback_movable_page o f = record (o.putback_page f) { isolated = false }

-- The pages put back, and what NR_ISOLATED_* has lost.
unfoldable pub putback_one : Movable → Folio → Folio × ℕ
unfolding putback_movable_page
putback_one o f =
    let held = set_locked true f in
    let back =
      if o.page_movable held
      then putback_movable_page o held
      else record held { isolated = false } in
    if f.hugetlb
    then (o.putback_active_hugepage f, 0)
    else if f.movable
    then (put_page (set_locked false back), 0)
    else (o.putback_lru_page f, f.nr_pages)

-- `putback_movable_pages`: each page leaves the list.
unfoldable pub putback_movable_pages : Movable → List Folio → List Folio × ℕ
putback_movable_pages o [] = ([], 0)
putback_movable_pages o (f ∷ fs) =
    let (back, dropped) = putback_one o f in
    let (backs, rest) = putback_movable_pages o fs in (back ∷ backs, dropped + rest)

-- What a driver promises: a page that it does not isolate is left as it was; one that it isolates
-- keeps its marks, and the put-back undoes the isolation.
pub record IsDriver (o : Movable) : Type 0 where
  pub refuses : (f : Folio) → (o.isolate_page f).0 ≡ false → (o.isolate_page f).1 ≡ f
  pub keeps_movable : (f : Folio) → (o.isolate_page f).1.movable ≡ f.movable
  pub keeps_hugetlb : (f : Folio) → (o.isolate_page f).1.hugetlb ≡ f.hugetlb
  pub undoes :
      (f : Folio)
      → o.putback_page (set_locked true (record (o.isolate_page f).1 { isolated = true }))
        ≡ record f { isolated = true; locked = true }
  pub stays_movable :
      (f : Folio)
      → o.page_movable f ≡ true
      → o.page_movable (set_locked true (record (o.isolate_page f).1 { isolated = true })) ≡ true

-- A folio with fields written over by the values that it has.
folio_again :
    (f : Folio) (i l : Bool) (n : ℕ)
    → f.isolated ≡ i
    → f.locked ≡ l
    → f.refcount ≡ n
    → record f { isolated = i; locked = l; refcount = n } ≡ f
folio_again f i l n ei el en =
    ap (λ (x : Bool). record f { isolated = x; locked = l; refcount = n }) (sym ei)
    ∙ ap (λ (x : Bool). record f { locked = x; refcount = n }) (sym el)
    ∙ ap (λ (x : ℕ). record f { refcount = x }) (sym en)

putback_one_movable :
    (o : Movable) (g : Folio)
    → g.hugetlb ≡ false
    → g.movable ≡ true
    → o.page_movable (set_locked true g) ≡ true
    → putback_one o g
      ≡ (put_page (set_locked false (putback_movable_page o (set_locked true g))), 0)
unfolding putback_one
putback_one_movable o g a b c = ground arith

module _ (o : Movable) (d : IsDriver o) (f : Folio) (h : f.hugetlb ≡ false) where
  abbrev Undone : Rc × Folio → Type 0
  Undone r =
      (r ≡ (fail ebusy, f)) ⊎ ((r.0 ≡ success) × (putback_movable_pages o (r.1 ∷ []) ≡ (f ∷ [], 0)))

  Undone-if :
      (b : Bool) (x y : Rc × Folio)
      → (b ≡ true → Undone x)
      → (b ≡ false → Undone y)
      → Undone (if b then x else y)
  Undone-if true x y g k = g refl
  Undone-if false x y g k = k refl

  abbrev held : Folio
  held = set_locked true (get_page f)

  isolated_back :
      f.movable ≡ true
      → f.locked ≡ false
      → f.isolated ≡ false
      → o.page_movable held ≡ true
      → putback_movable_pages o
          (set_locked false (record (o.isolate_page held).1 { isolated = true }) ∷ [])
        ≡ (f ∷ [], 0)
  unfolding putback_movable_pages putback_movable_page
  isolated_back m l i p =
      let taken : Folio = set_locked false (record (o.isolate_page held).1 { isolated = true }) in
      let one =
        putback_one_movable o taken (d.keeps_hugetlb held ∙ h) (d.keeps_movable held ∙ m)
          (d.stays_movable held p) in
      let undone =
        ap (λ (g : Folio). put_page (set_locked false (record g { isolated = false })))
          (d.undoes held) in
      let again = folio_again f false false (f.refcount + 1 - 1) i l (omega arith) in
      ap (λ (r : Folio × ℕ). (r.0 ∷ [], r.1 + 0)) one
      ∙ ap (λ (g : Folio). (g ∷ [], 0)) (undone ∙ again)

  refused : {g : Folio} → g ≡ f → ◌≡◌ {A = Rc × Folio} (fail ebusy, g) (fail ebusy, f)
  refused {g} e = ap {B = Rc × Folio} (λ (x : Folio). (fail ebusy, x)) e

  Undone-after_isolate_page :
      f.movable ≡ true
      → f.locked ≡ false
      → f.isolated ≡ false
      → o.page_movable held ≡ true
      → (b : Bool) → (o.isolate_page held).0 ≡ b
      → Undone (after_isolate_page (b, (o.isolate_page held).1))
  Undone-after_isolate_page m l i p true e = inr (refl, isolated_back m l i p)
  Undone-after_isolate_page m l i p false e = inl (
      ap {B = Rc × Folio} (λ (g : Folio). (fail ebusy, put_page (set_locked false g)))
        (d.refuses held e)
      ∙ refused (folio_again f f.isolated false (f.refcount + 1 - 1) refl l (omega arith)))

  Undone-isolate_movable_page : Undone (isolate_movable_page o f)
  unfolding isolate_movable_page
  Undone-isolate_movable_page =
      Undone-if (f.refcount == 0) _ _ (λ z. inl refl)
        λ z.
          Undone-if (not f.movable) _ _ (λ m. inl (refused put_back))
            λ m.
              Undone-if f.locked _ _ (λ l. inl (refused put_back))
                λ l.
                  Undone-if (not (o.page_movable held) || f.isolated) _ _
                    (λ i. inl (
                      refused
                        (folio_again f f.isolated false (f.refcount + 1 - 1) refl l (omega arith))))
                    λ i.
                      Undone-after_isolate_page (ground arith) l (ground arith) (ground arith)
                        (o.isolate_page held).0 refl
    where
      put_back : put_page (get_page f) ≡ f
      put_back = folio_again f f.isolated f.locked (f.refcount + 1 - 1) refl refl (omega arith)

-- `isolate_movable_page` either fails with -EBUSY and leaves the page as it was, or succeeds,
-- and then `putback_movable_pages` brings back the page as it was, if it is no hugetlb page: with
-- the same references, unlocked and no longer isolated. This relies on a driver whose put-back
-- undoes its isolation.
pub putback-isolate :
    (o : Movable)
    → IsDriver o
    → (f : Folio) → f.hugetlb ≡ false
    → (isolate_movable_page o f ≡ (fail ebusy, f))
      ⊎ (((isolate_movable_page o f).0 ≡ success)
          × (putback_movable_pages o ((isolate_movable_page o f).1 ∷ []) ≡ (f ∷ [], 0)))
putback-isolate o d f h = Undone-isolate_movable_page o d f h
