-- ===== src/Diversion/Page/Moves.antt =====
-- Where the position on a page can go.
use groff.Prelude.{
  ◌⊎◌, ◌≡◌, ◌≢◌, refl, sym, inl, inr, Bool, true, false, not, ◌&&◌, Option, none, some, List, [],
  ◌∷◌, arith, ltb, if◌then◌else◌, Bool-cases, All, ℤ, pos, ◌+ℤ◌, ◌≤ℤ◌, ◌<ℤ◌, int_laws, ltb_ℤ, leb_ℤ,
  minus,
}
use mathlib.Core.List.{Mem}
use groff.Units.{plain, from_units, add, subtract}
use groff.Int32.{IsInt}
use groff.Diversion.Traps.{Trap, Found, find_next_trap}
use groff.Diversion.Traps.Next.{IsAhead, NotLater, Ok, place, find_next_trap-first}
use groff.Diversion.Page.{
  Top, Setting, Outcome, running, exits, undefined, from_option, is_last_page, new_page_number,
  page_begun, start_page, begin_page, is_at_top, move_down, is_reached, found_place, count_space,
  space,
}

-- A call is defined, the state after one that goes on has a property, and one that ends the program may.
abbrev pub Leaves : {A : Type 0} → Type 0 → (Top → Type 0) → Outcome A → Type 0
Leaves E P (running a d events) = P d
Leaves E P exits = E
Leaves E P undefined = ⊥

pub Leaves-from_option :
    {A B : Type 0} (E : Type 0) (P : Top → Type 0) (o : Option A) (f : A → Outcome B)
    → o ≢ none
    → ((a : A) → o ≡ some a → Leaves E P (f a))
    → Leaves E P (from_option o f)
Leaves-from_option E P none f defined h = absurd (defined refl)
Leaves-from_option E P (some a) f defined h = h a refl

pub Leaves-if :
    {A : Type 0} (E : Type 0) (P : Top → Type 0) (b : Bool) (x y : Outcome A)
    → (b ≡ true → Leaves E P x)
    → (b ≡ false → Leaves E P y)
    → Leaves E P (if b then x else y)
Leaves-if E P true x y h k = h refl
Leaves-if E P false x y h k = k refl

-- A page that has just begun.
abbrev pub IsBegun : Top → Type 0
IsBegun d = (d.vertical_position ≡ pos 0) × (d.before_first_page_status ≡ 0)

-- Lengths and positions are values of `int`, and the present position is on the page.
abbrev pub IsOnPage : Top → Type 0
IsOnPage d =
    IsInt d.page_length
    × (pos 0 ≤ℤ d.vertical_position)
    × (d.vertical_position ≤ℤ d.page_length)
    × All (λ t. IsInt t.position) d.page_trap_list

-- A page can be begun: the numbers of pages stay below INT_MAX, and the resolution has a negative.
abbrev pub CanBegin : Setting → Top → Type 0
CanBegin g d =
    (plain (d.page_count +ℤ pos 1) ≢ none)
    × (new_page_number d ≢ none)
    × (from_units g.vresolution (minus g.vresolution) ≢ none)

pub finds :
    (d : Top) → IsOnPage d → (v : ℤ) → find_next_trap d.page_length v d.page_trap_list ≢ none
finds d (is_int, low, high, ints) v e =
    let (r, runs, _, _) =
      find_next_trap-first d.page_length v d.page_trap_list is_int (omega arith) ints in
    absurd (ground arith)

start_page-IsBegun :
    (g : Setting) (n : ℤ) (d : Top) (count number : ℤ) (found : Found)
    → Leaves Unit IsBegun (start_page g n d count number found)
unfolding start_page page_begun
start_page-IsBegun g n d count number found =
    elim (Bool-cases (g.honor_vertical_position_traps && is_at_top found)) [
      | inl sprung ↦ rw sprung (refl, refl)
      | inr quiet ↦ rw quiet (refl, refl)
    ]

begin_page-IsBegun :
    (g : Setting) (n : ℤ) (d : Top)
    → IsOnPage d
    → CanBegin g d
    → Leaves Unit IsBegun (begin_page g n d)
unfolding begin_page
begin_page-IsBegun g n d on (counts, numbers, resolves) =
    Leaves-if Unit IsBegun (is_last_page g d) _ _ (λ last. tt)
      (λ more. Leaves-from_option Unit IsBegun (plain (d.page_count +ℤ pos 1)) _ counts (λ count e1.
        Leaves-from_option Unit IsBegun (new_page_number d) _ numbers (λ number e2.
          Leaves-from_option Unit IsBegun (from_units g.vresolution (minus g.vresolution)) _
            resolves
            (λ above e3.
              Leaves-from_option Unit IsBegun (find_next_trap d.page_length above d.page_trap_list)
                (start_page g n d count number) (finds d on above)
                (λ found e4. start_page-IsBegun g n d count number found)))))

All-map : {P Q : Trap → Type 0} (ts : List Trap) → ((t : Trap) → P t → Q t) → All P ts → All Q ts
All-map [] f h = tt
All-map (t ∷ ts) f (ht, h) = (f t ht, All-map ts f h)

-- A move keeps to the page and passes no trap that was ahead. The last part is for a move down.
abbrev pub Stays : ℤ → Top → ℤ → Type 0
Stays n d v =
    (pos 0 ≤ℤ v)
    × All (λ t. IsAhead d.page_length d.vertical_position t → v ≤ℤ place d.page_length t)
        d.page_trap_list
    × (pos 0 ≤ℤ n → v ≤ℤ d.page_length)

ahead-place :
    (page_length v : ℤ) (t : Trap)
    → IsAhead page_length v t
    → (v <ℤ place page_length t) × (place page_length t ≤ℤ page_length)
ahead-place page_length v t (used, below, inl (top, short)) =
    let e : place page_length t ≡ t.position = ground arith in (below, ground arith)
ahead-place page_length v t (used, below, inr (bottom, on)) =
    let e : place page_length t ≡ t.position +ℤ page_length = ground arith in
    (below, rw e (omega int_laws))

-- At the top.
top-Stays : (n : ℤ) (d : Top) → IsOnPage d → Stays n d (pos 0)
top-Stays n d (_, low, high, _) = (omega arith, from_top d.page_trap_list, λ _. omega arith)
  where
    from_top :
        (ts : List Trap)
        → All (λ t. IsAhead d.page_length d.vertical_position t → pos 0 ≤ℤ place d.page_length t) ts
    from_top [] = tt
    from_top (t ∷ ts) = (
      (λ a. let (below, _) = ahead-place d.page_length d.vertical_position t a in omega arith),
      from_top ts,
    )

-- Where it is.
same-Stays : (n : ℤ) (d : Top) → IsOnPage d → Stays n d d.vertical_position
same-Stays n d (_, low, high, _) = (low, from_here d.page_trap_list, λ _. high)
  where
    from_here :
        (ts : List Trap)
        → All
            (λ t.
              IsAhead d.page_length d.vertical_position t
              → d.vertical_position ≤ℤ place d.page_length t)
            ts
    from_here [] = tt
    from_here (t ∷ ts) = (
      (λ a. let (below, _) = ahead-place d.page_length d.vertical_position t a in omega arith),
      from_here ts,
    )

not_reached : (y a b : ℤ) → leb_ℤ a y ≡ false → a ≤ℤ b → y ≤ℤ b
not_reached y a b free le = ground arith

-- A page that has begun may be left for the next one where no trap is ahead on it.
abbrev pub MayBegin : Top → Type 0
MayBegin d =
    d.before_first_page_status ≡ 0
    → All (λ t. ¬ IsAhead d.page_length d.vertical_position t) d.page_trap_list

-- The state behind a move: where it is, and that it is on the same page or may be on the next one.
abbrev pub Keeps : ℤ → Top → Top → Type 0
Keeps n d e = Stays n d e.vertical_position × ((e.page_count ≡ d.page_count) ⊎ MayBegin d)

-- At the next trap, and before it.
module _ (n : ℤ) (d : Top) (on : IsOnPage d) where
  trap-Stays :
      (f : Trap × ℤ)
      → Ok d.page_length d.vertical_position (λ t. Unit {0}) (some f)
      → All
          (λ t.
            IsAhead d.page_length d.vertical_position t → NotLater (some f) (place d.page_length t))
          d.page_trap_list
      → Stays n d f.1
  trap-Stays (t, p) (_, ahead, e) first_one =
      let (below, on_page) = ahead-place d.page_length d.vertical_position t ahead in
      (rw e (let (_, low, _, _) = on in omega arith), first_one, λ _. rw e on_page)

  between-Stays :
      (y : ℤ) (found : Found)
      → is_reached y found ≡ false
      → pos 0 ≤ℤ y
      → (pos 0 ≤ℤ n → y ≤ℤ d.page_length)
      → All
          (λ t.
            IsAhead d.page_length d.vertical_position t → NotLater found (place d.page_length t))
          d.page_trap_list
      → Stays n d y
  between-Stays y none free low high all =
      (low, All-map d.page_trap_list (λ t h a. absurd (h a)) all, high)
  between-Stays y (some f) free low high all =
      (low, All-map d.page_trap_list (λ t h a. not_reached y f.1 _ free (h a)) all, high)

  begun-Keeps :
      (o : Outcome Bool) → MayBegin d → Leaves Unit IsBegun o → Leaves (MayBegin d) (Keeps n d) o
  begun-Keeps (running b e events) may (top, _) = (rw top (top-Stays n d on), inr may)
  begun-Keeps exits may h = may
  begun-Keeps undefined may h = h

  -- A trap that is ahead is reached before the bottom of the page is.
  none-IsAhead :
      (y : ℤ) (found : Found)
      → is_reached y found ≡ false
      → d.page_length ≤ℤ y
      → (ts : List Trap)
      → All
          (λ t.
            IsAhead d.page_length d.vertical_position t → NotLater found (place d.page_length t))
          ts
      → All (λ t. ¬ IsAhead d.page_length d.vertical_position t) ts
  none-IsAhead y found free over [] all = tt
  none-IsAhead y none free over (t ∷ ts) (h, all) = (h, none-IsAhead y none free over ts all)
  none-IsAhead y (some f) free over (t ∷ ts) (h, all) = (
    λ a.
        let (_, on_page) = ahead-place d.page_length d.vertical_position t a in
        let first = h a in absurd (ground arith),
    none-IsAhead y (some f) free over ts all,
  )

  move_down-Keeps :
      (g : Setting) (y : ℤ) (found : Found) (e : Top)
      → g.honor_vertical_position_traps ≡ true
      → e.page_length ≡ d.page_length
      → e.page_count ≡ d.page_count
      → ((m : ℤ) → Leaves Unit IsBegun (begin_page g m e))
      → Ok d.page_length d.vertical_position (λ t. Unit {0}) found
      → All
          (λ t.
            IsAhead d.page_length d.vertical_position t → NotLater found (place d.page_length t))
          d.page_trap_list
      → Leaves (MayBegin d) (Keeps n d) (move_down g n y found e)
  unfolding move_down
  move_down-Keeps g y found e honor same counted begins ok all =
      Leaves-if (MayBegin d) (Keeps n d) (g.honor_vertical_position_traps && is_reached y found) _ _
        (λ reached. (at_trap found ok all (ground arith), inl counted))
        (λ free.
          Leaves-if (MayBegin d) (Keeps n d) (ltb_ℤ y (pos 0)) _ _
            (λ above. (top-Stays n d on, inl counted))
            (λ low.
              Leaves-if (MayBegin d) (Keeps n d)
                (g.honor_vertical_position_traps && leb_ℤ e.page_length y && leb_ℤ (pos 0) n) _ _
                (λ over.
                  let bottom : e.page_length ≤ℤ y = ground arith in
                  let may =
                    none-IsAhead y found (ground arith) (rw same at bottom) d.page_trap_list all in
                  begun-Keeps (begin_page g (subtract y e.page_length) e) (λ _. may)
                    (begins (subtract y e.page_length)))
                (λ within. (
                  between-Stays y found (ground arith) (ground arith)
                      (λ down. rw (sym same) (ground (arith, down))) all,
                  inl counted,
                ))))
    where
      at_trap :
          (found : Found)
          → Ok d.page_length d.vertical_position (λ t. Unit {0}) found
          → All
              (λ t.
                IsAhead d.page_length d.vertical_position t
                → NotLater found (place d.page_length t))
              d.page_trap_list
          → is_reached y found ≡ true
          → Stays n d (found_place found)
      at_trap none ok all r = absurd (ground arith)
      at_trap (some f) ok all r = trap-Stays f ok all

-- What the search found, as `find_next_trap-first` has it.
found_lem :
    (d : Top)
    → IsOnPage d
    → (found : Found)
    → find_next_trap d.page_length d.vertical_position d.page_trap_list ≡ some found
    → Ok d.page_length d.vertical_position (λ t. Unit {0}) found
      × All
          (λ t.
            IsAhead d.page_length d.vertical_position t → NotLater found (place d.page_length t))
          d.page_trap_list
found_lem d (is_int, low, high, ints) found e =
    let (r, runs, ok, all) =
      find_next_trap-first d.page_length d.vertical_position d.page_trap_list is_int (omega arith)
        ints in
    let same : r ≡ found = ground arith in rw (sym same) (forget r ok, all)
  where
    forget :
        (r : Found)
        → Ok d.page_length d.vertical_position (λ t. Mem t d.page_trap_list) r
        → Ok d.page_length d.vertical_position (λ t. Unit {0}) r
    forget none ok = tt
    forget (some f) (_, ahead, e) = (tt, ahead, e)

-- Moving by a distance, on a page on which traps are honored and where the counts do not overflow, is
-- defined. If the program goes on, it leaves the position at or below the top of the page and above or at
-- every trap that was ahead, and for a move down not beyond the bottom, whether the move ends at a trap, at
-- the top, on a new page or between. A page that has begun is left for a new one, or for the end of the
-- program, only where no trap is ahead on it; so no trap is passed.
pub space-Stays :
    (g : Setting) (n : ℤ) (forcing : Bool) (d : Top)
    → g.honor_vertical_position_traps ≡ true
    → IsOnPage d
    → CanBegin g d
    → count_space g n d.seen_space ≢ none
    → Leaves (MayBegin d) (Keeps n d) (space g n forcing d)
unfolding space new_page_number
space-Stays g n forcing d honor on can counts =
    Leaves-if (MayBegin d) (Keeps n d) (d.is_in_no_space_mode && not forcing) _ _
      (λ still. (same-Stays n d on, inl refl))
      (λ moves.
        Leaves-if (MayBegin d) (Keeps n d) (ltb 0 d.before_first_page_status) _ _
          (λ early.
            begun-Keeps n d on (begin_page g n (record d { is_in_no_space_mode = false }))
              (λ begun. absurd (ground arith))
              (begin_page-IsBegun g n (record d { is_in_no_space_mode = false }) on can))
          (λ started.
            Leaves-from_option (MayBegin d) (Keeps n d)
              (find_next_trap d.page_length d.vertical_position d.page_trap_list) _
              (finds d on d.vertical_position)
              (λ found e.
                let (ok, all) = found_lem d on found e in
                Leaves-from_option (MayBegin d) (Keeps n d) (count_space g n d.seen_space) _ counts
                  (λ seen _.
                    move_down-Keeps n d on g (add d.vertical_position n) found
                      (record d { is_in_no_space_mode = false; seen_space = seen }) honor refl refl
                      (λ m.
                        begin_page-IsBegun g m
                          (record d { is_in_no_space_mode = false; seen_space = seen }) on can)
                      ok all))))
