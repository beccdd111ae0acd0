-- ===== src/Hub/Pages.antt =====
-- The loop over the pages collects exactly the rows of a chain of pages that ends.
use workbench.Prelude.{
  ℕ, zero, suc, ◌≤◌, ◌≡◌, refl, sym, ap, ◌∙◌, subst, ◌↔◌, ◌⊎◌, String, Option, none, some, List, [],
  ◌++◌, append_assoc, arith, Option-cases, inl, inr,
}
use workbench.Prelude.Action.{Attempt, done, thrown}
use workbench.Hub.{Page, collect_pages}

Attempt-cases :
    {E A : Type 0} (r : Attempt E A) → ((a : A) × (r ≡ done a)) ⊎ ((e : E) × (r ≡ thrown e))
Attempt-cases (done a) = inl (a, refl)
Attempt-cases (thrown e) = inr (e, refl)

ended_rows :
    {E A : Type 0} {xs ys : List A}
    → ◌≡◌ {A = Option (Attempt E (List A))} (some (done xs)) (some (done ys))
    → ys ≡ xs
ended_rows h = cc

module _ {E A : Type 0} (page_at : Option String → Attempt E (Page A)) where
  -- From the cursor on, the hub answers `n` pages, the last of them without a cursor, and `rows` are
  -- their rows in order.
  pub data Listing : Option String → List A → ℕ → Type 0 where
    last_page :
        {cursor : Option String} {page : Page A}
        → page_at cursor ≡ done page
        → page.next_cursor ≡ none
        → Listing cursor page.items 1
    more_pages :
        {cursor : Option String} {page : Page A} {next : String} {rows : List A} {n : ℕ}
        → page_at cursor ≡ done page
        → page.next_cursor ≡ some next
        → Listing (some next) rows n
        → Listing cursor (page.items ++ rows) (suc n)

  pub collects :
      (fuel : ℕ) (acc : List A) {cursor : Option String} {rows : List A} {n : ℕ}
      → Listing cursor rows n
      → n ≤ fuel
      → collect_pages page_at fuel cursor acc ≡ some (done (acc ++ rows))
  unfolding collect_pages
  collects zero acc (last_page e f) h = absurd (omega (arith, h))
  collects zero acc (more_pages e f l) h = absurd (omega (arith, h))
  collects (suc fuel) acc (last_page {cursor} {page} e f) h =
      rw (e, collect_pages) (rw (f, collect_pages) refl)
  collects (suc fuel) acc (more_pages {cursor} {page} {next} {rows} {n} e f l) h =
      rw (e, collect_pages)
        (rw (f, collect_pages)
          (collects fuel (acc ++ page.items) l (omega (arith, h))
            ∙ ap (λ xs. some (done xs)) (append_assoc acc page.items rows)))

  -- A loop that returned went over a listing.
  abbrev pub Collected : Option String → List A → ℕ → List A → Type 0
  Collected cursor acc fuel out =
      (rows : List A) × (n : ℕ) × Listing cursor rows n × (n ≤ fuel) × (out ≡ acc ++ rows)

  collected :
      (fuel : ℕ) (cursor : Option String) (acc out : List A)
      → collect_pages page_at fuel cursor acc ≡ some (done out)
      → Collected cursor acc fuel out
  unfolding collect_pages
  collected zero cursor acc out h = absurd cc
  collected (suc fuel) cursor acc out h = elim (Attempt-cases (page_at cursor)) [
    | inr (x, e) ↦ absurd (cc (rw (e, collect_pages) at h))
    | inl (page, e) ↦ elim (Option-cases page.next_cursor) [
      | inl f ↦
          let h' = rw (f, collect_pages) at (rw (e, collect_pages) at h) in
          (page.items, 1, last_page e f, omega arith, ended_rows h')
      | inr (next, f) ↦
          let (rows, n, l, bound, same) =
            collected fuel (some next) (acc ++ page.items) out
              (rw (f, collect_pages) at (rw (e, collect_pages) at h)) in
          (
            page.items ++ rows,
            suc n,
            more_pages e f l,
            omega (arith, bound),
            same ∙ append_assoc acc page.items rows,
          )
    ]
  ]

  -- With `fuel` pages allowed, the loop returns exactly the rows of the listing of at most so many
  -- pages that starts without a cursor.
  pub collect_pages-Listing :
      (fuel : ℕ) (rows : List A)
      → (collect_pages page_at fuel none [] ≡ some (done rows))
        ↔ ((n : ℕ) × Listing none rows n × (n ≤ fuel))
  collect_pages-Listing fuel rows = (
    λ h.
        let (found, n, l, bound, same) = collected fuel none [] rows h in
        (n, subst (λ xs. Listing none xs n) (sym same) l, bound),
    λ (n, l, bound). collects fuel [] l bound,
  )

  repeats :
      (c : String) (page : Page A) (fuel : ℕ) (acc : List A)
      → page_at (some c) ≡ done page
      → page.next_cursor ≡ some c
      → collect_pages page_at fuel (some c) acc ≡ none
  unfolding collect_pages
  repeats c page zero acc e f = refl
  repeats c page (suc fuel) acc e f =
      rw (e, collect_pages) (rw (f, collect_pages) (repeats c page fuel (acc ++ page.items) e f))

  -- Where the page at a cursor names that cursor as the next one, the loop never ends once it is there.
  pub collect_pages_again :
      (c : String) (first page : Page A) (fuel : ℕ)
      → page_at none ≡ done first
      → first.next_cursor ≡ some c
      → page_at (some c) ≡ done page
      → page.next_cursor ≡ some c
      → collect_pages page_at fuel none [] ≡ none
  unfolding collect_pages
  collect_pages_again c first page zero d g e f = refl
  collect_pages_again c first page (suc fuel) d g e f =
      rw (d, collect_pages) (rw (g, collect_pages) (repeats c page fuel first.items e f))
