-- ===== src/Poe/Adapter/Pages.antt =====
-- Walks over the pages of a contract: `IterateActiveValidators` of x/poe/contract/petri_valset.go. The loop
-- takes fuel, as a contract may answer with cursors without end; where a contract serves a list in pages,
-- each but the last with an entry, the rounds are at most the entries after the first page and two more.
-- Every answer is decoded into the same response.
use tgrade.Base.{
  ℕ, zero, suc, ◌+◌, ◌<◌, ◌≡◌, refl, sym, ap, ◌∙◌, String, str_eq, Bool, true, false, Option, none,
  some, List, [], ◌∷◌, ◌++◌, length, length-append, Outcome, ok, err, panic, if◌then◌else◌, arith,
  Bool-cases, inl, inr,
}
use tgrade.Base.Int.{pos}
use tgrade.Poe.Adapter.{Querier, Paginator, WalkCursor, ValidatorInfo, to_query, active_page}

-- From the cursor on, the pages hold exactly the entries of the list: each page but the last has an
-- entry and a cursor, and the last is empty.
pub data Serves {X : Type 0} (page : String → Outcome (List X × String))
    : String → List X → Type 0 where
  last : {c : String} → page c ≡ ok ([], "") → Serves page c []
  more :
      {c d : String} (x : X) (xs rest all : List X)
      → page c ≡ ok (x ∷ xs, d)
      → str_eq d "" ≡ false
      → all ≡ x ∷ (xs ++ rest)
      → Serves page d rest
      → Serves page c all

-- The same for a walk whose cursor holds the answers so far: each page is what the response has after its
-- answer was decoded into it.
pub data Continues (page : WalkCursor → Outcome (List ValidatorInfo × WalkCursor))
    : WalkCursor → List ValidatorInfo → Type 0 where
  ends :
      {c : WalkCursor} {answers : List (List ℕ)}
      → page c ≡ ok ([], ("", answers))
      → Continues page c []
  goes_on :
      {c d : WalkCursor} (x : ValidatorInfo) (xs rest all : List ValidatorInfo)
      → page c ≡ ok (x ∷ xs, d)
      → str_eq d.0 "" ≡ false
      → all ≡ x ∷ (xs ++ rest)
      → Continues page d rest
      → Continues page c all

-- The callback on the entries of a page, in order: whether it stopped, and what it made of the
-- accumulator.
unfoldable pub walk : {A X : Type 0} → (A → X → Bool × A) → A → List X → Bool × A
walk callback acc [] = (false, acc)
walk callback acc (x ∷ xs) =
    let (stop, acc') = callback acc x in
    let rest = walk callback acc' xs in if stop then (true, acc') else rest

pub walk-append :
    {A X : Type 0} (callback : A → X → Bool × A) (acc : A) (xs ys : List X)
    → walk callback acc (xs ++ ys) ≡ (
        if (walk callback acc xs).0
        then walk callback acc xs
        else walk callback (walk callback acc xs).1 ys)
unfolding walk
walk-append callback acc [] ys = refl
walk-append callback acc (x ∷ xs) ys = elim (Bool-cases (callback acc x).0) [
  | inl stop ↦ ground (arith, stop)
  | inr go ↦ ground (arith, go, walk-append callback (callback acc x).1 xs ys)
]

module _ {S : Type 0} (q : Querier S) (adapter : Outcome ℕ) (s : S) where
  -- The page after a cursor, with no limit.
  abbrev pub next_page : WalkCursor → Outcome (List ValidatorInfo × WalkCursor)
  next_page c = active_page q adapter c (pos 0) s

  -- The loop, with the page that was read and its cursor; `none` when the fuel runs out.
  unfoldable pub iterate_pages :
      {A : Type 0}
      → ℕ
      → (A → ValidatorInfo → Bool × A)
      → A
      → List ValidatorInfo × WalkCursor
      → Option (Outcome A)
  iterate_pages zero callback acc (page, cursor) = none
  iterate_pages (suc fuel) callback acc (page, cursor) =
      if str_eq cursor.0 ""
      then some (ok acc)
      else let (stop, acc') = walk callback acc page in
        if stop then some (ok acc') else elim (next_page cursor) [
          | ok p ↦ iterate_pages fuel callback acc' p
          | err e ↦ some (err e)
          | panic ↦ some panic
        ]

  unfoldable pub iterate_active_validators :
      {A : Type 0} → ℕ → (A → ValidatorInfo → Bool × A) → A → Option Paginator → Option (Outcome A)
  iterate_active_validators fuel callback acc pagination =
      let (start_after, limit) = to_query pagination in
      elim (active_page q adapter (start_after, []) limit s) [
        | ok p ↦ iterate_pages fuel callback acc p
        | err e ↦ some (err e)
        | panic ↦ some panic
      ]

  -- A round on a page whose entries do not stop the walk reads the next page.
  iterate_pages-next :
      {A : Type 0} (fuel : ℕ) (callback : A → ValidatorInfo → Bool × A) (acc : A)
      (page next : List ValidatorInfo) (d e : WalkCursor)
      → str_eq d.0 "" ≡ false
      → (walk callback acc page).0 ≡ false
      → next_page d ≡ ok (next, e)
      → iterate_pages (suc fuel) callback acc (page, d)
        ≡ iterate_pages fuel callback (walk callback acc page).1 (next, e)
  unfolding iterate_pages
  iterate_pages-next fuel callback acc page next d e nonempty on found =
      ground (arith, nonempty, on, found)

  iterate_pages-stop :
      {A : Type 0} (fuel : ℕ) (callback : A → ValidatorInfo → Bool × A) (acc : A)
      (page rest : List ValidatorInfo) (d : WalkCursor)
      → str_eq d.0 "" ≡ false
      → (walk callback acc page).0 ≡ true
      → iterate_pages (suc fuel) callback acc (page, d)
        ≡ some (ok (walk callback acc (page ++ rest)).1)
  unfolding iterate_pages
  iterate_pages-stop fuel callback acc page rest d nonempty stop =
      ground (arith, nonempty, stop, walk-append callback acc page rest)

  -- What a walk of `fuel` rounds or more gives from any page on.
  abbrev Walks : {A : Type 0} → ℕ → (A → ValidatorInfo → Bool × A) → Type 0
  Walks {A} fuel callback =
      (acc : A) (page rest : List ValidatorInfo) (d : WalkCursor)
      → str_eq d.0 "" ≡ false
      → Continues next_page d rest
      → length rest + 1 < fuel
      → iterate_pages fuel callback acc (page, d) ≡ some (ok (walk callback acc (page ++ rest)).1)

  iterate_pages-last :
      {A : Type 0} (fuel : ℕ) (callback : A → ValidatorInfo → Bool × A) (acc : A)
      (answers : List (List ℕ))
      → 0 < fuel
      → iterate_pages fuel callback acc ([], ("", answers)) ≡ some (ok acc)
  unfolding iterate_pages
  iterate_pages-last zero callback acc answers h = absurd (omega arith)
  iterate_pages-last (suc fuel) callback acc answers h = refl

  walk-on :
      {A : Type 0} (callback : A → ValidatorInfo → Bool × A) (acc : A) (xs ys : List ValidatorInfo)
      → (walk callback acc xs).0 ≡ false
      → walk callback acc (xs ++ ys) ≡ walk callback (walk callback acc xs).1 ys
  walk-on callback acc xs ys on = rw (walk-append callback acc xs ys, on) refl

  Walks-suc :
      {A : Type 0} (fuel : ℕ) (callback : A → ValidatorInfo → Bool × A)
      → Walks fuel callback
      → (acc : A) (page rest : List ValidatorInfo) (d : WalkCursor) → str_eq d.0 "" ≡ false
      → (walk callback acc page).0 ≡ false
      → length rest + 1 < suc fuel
      → Continues next_page d rest
      → iterate_pages (suc fuel) callback acc (page, d)
        ≡ some (ok (walk callback acc (page ++ rest)).1)
  unfolding walk
  Walks-suc fuel callback ih acc page rest d nonempty on small (ends {answers = answers} e) =
      iterate_pages-next fuel callback acc page [] d ("", answers) nonempty on e
      ∙ iterate_pages-last fuel callback (walk callback acc page).1 answers (omega arith)
      ∙ ap (λ r. some (ok r.1)) (sym (walk-on callback acc page [] on))
  Walks-suc fuel callback ih acc page rest d nonempty on small
        (goes_on x xs later all e nonempty' split r) =
      iterate_pages-next fuel callback acc page (x ∷ xs) d _ nonempty on e
      ∙ ih (walk callback acc page).1 (x ∷ xs) later _ nonempty' r
          (omega (arith, ap length split, length-append {0} xs later))
      ∙ ap (λ r. some (ok r.1))
          (sym (walk-on callback acc page (x ∷ (xs ++ later)) on)
            ∙ ap (λ l. walk callback acc (page ++ l)) (sym split))

  iterate_pages-Walks :
      {A : Type 0} (fuel : ℕ) (callback : A → ValidatorInfo → Bool × A) → Walks fuel callback
  iterate_pages-Walks zero callback acc page rest d nonempty r small = absurd (omega arith)
  iterate_pages-Walks (suc fuel) callback acc page rest d nonempty r small =
      elim (Bool-cases (walk callback acc page).0) [
        | inl stop ↦ iterate_pages-stop fuel callback acc page rest d nonempty stop
        | inr on ↦
            Walks-suc fuel callback (iterate_pages-Walks fuel callback) acc page rest d nonempty on
              small r
      ]

  -- Where the first query gives a page with a cursor, and the queries from that cursor on, all answers
  -- decoded into the same response, give the other active validators in pages, each but the last with an
  -- entry and a cursor and the last empty, the iteration returns: a number of rounds that exceeds the
  -- number of these other validators by two or more is enough. The callback has then seen the
  -- validators of the first page and the others in order, up to the first at which it stopped.
  pub iterate_active_validators-walk :
      {A : Type 0} (fuel : ℕ) (callback : A → ValidatorInfo → Bool × A) (acc : A)
      (pagination : Option Paginator) (page rest : List ValidatorInfo) (d : WalkCursor)
      → active_page q adapter ((to_query pagination).0, []) (to_query pagination).1 s ≡ ok (page, d)
      → str_eq d.0 "" ≡ false
      → Continues next_page d rest
      → length rest + 1 < fuel
      → iterate_active_validators fuel callback acc pagination
        ≡ some (ok (walk callback acc (page ++ rest)).1)
  unfolding iterate_active_validators
  iterate_active_validators-walk fuel callback acc pagination page rest d first nonempty r small =
      ground (arith, first, iterate_pages-Walks fuel callback acc page rest d nonempty r small)
