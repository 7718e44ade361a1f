-- ===== src/Diversion/Page/TopTrap.antt =====
-- The trap at the top of a page.
use mathlib.Core.List.{Mem, eq-or-mem_of_mem-cons, not-mem-nil}
use mathlib.Core.Logic.Or
use mathlib.Core.HLevel.{¬_prop}
use groff.Prelude.{
  ℕ, ◌^◌, ◌≤◌, ◌≡◌, ◌≢◌, ◌↔◌, refl, sym, ap, ◌∙◌, inl, inr, Bool, true, false, not, ◌&&◌, Option,
  none, some, List, [], ◌∷◌, arith, ◌==◌, if◌then◌else◌, Bool-cases, All, ℤ, pos, negsuc, ◌+ℤ◌,
  ◌≤ℤ◌, ◌<ℤ◌, eq_ℤ, minus,
}
use groff.Units.{plain, from_units, to_units}
use groff.Units.Rounding.{from_units-to_units, to_units-minus}
use groff.Diversion.Traps.{Trap, Found, is_free, find_next_trap}
use groff.Diversion.Traps.Next.{IsAhead, NotLater, Ok, place, find_next_trap-first}
use groff.Diversion.Traps.Plant.{trap_at}
use groff.Diversion.Page.{
  Top, Setting, Event, running, is_last_page, new_page_number, start_page, begin_page, is_at_top,
}
use groff.Diversion.Page.Moves.{IsOnPage, CanBegin}

minus_one : minus 1 ≡ negsuc 0
unfolding minus
minus_one = refl

above_unit : from_units 1 (negsuc 0) ≡ some (negsuc 0)
unfolding from_units
above_unit = refl

above_lem : (res : ℕ) → 1 ≤ res → res ≤ 2 ^ 29 → from_units res (minus res) ≡ some (negsuc 0)
above_lem res low high = elim (Bool-cases (res == 1)) [
  | inl one ↦ let e : res ≡ 1 = ground arith in rw (e, minus_one) above_unit
  | inr more ↦
      let one_unit : to_units res (negsuc 0) ≡ minus res =
        ap (to_units res) (sym minus_one)
        ∙ to_units-minus res 1 (omega arith)
        ∙ ap minus (omega arith) in
      ap (from_units res) (sym one_unit)
      ∙ from_units-to_units res (negsuc 0) (ground arith) (omega arith)
]

-- A trap in use at the top is seen there,
visible :
    (t : Trap) (ts : List Trap)
    → is_free t ≡ false
    → t.position ≡ pos 0
    → trap_at (pos 0) (t ∷ ts) ≢ none
visible t ts used top e = ground arith

behind : (u : Trap) (ts : List Trap) → trap_at (pos 0) ts ≢ none → trap_at (pos 0) (u ∷ ts) ≢ none
behind u ts seen e = ground arith

seen_at_top :
    (t : Trap) (ts : List Trap)
    → Mem t ts
    → is_free t ≡ false
    → t.position ≡ pos 0
    → trap_at (pos 0) ts ≢ none
seen_at_top t [] m used top = absurd (not-mem-nil m)
seen_at_top t (u ∷ ts) m used top =
    Or.elim ¬_prop (eq-or-mem_of_mem-cons m)
      (λ e. visible u ts (ap is_free (sym e) ∙ used) (ap (λ v. v.position) (sym e) ∙ top))
      (λ m2. behind u ts (seen_at_top t ts m2 used top))

-- and the next trap behind -1 is no later than it.
top-place : (page_length : ℤ) (t : Trap) → t.position ≡ pos 0 → place page_length t ≡ pos 0
top-place page_length t top = rw top refl

top-IsAhead :
    (page_length : ℤ) (t : Trap)
    → pos 0 <ℤ page_length
    → is_free t ≡ false
    → t.position ≡ pos 0
    → IsAhead page_length (negsuc 0) t
top-IsAhead page_length t positive used top =
    (used, rw (top-place page_length t top) (omega arith), inl (ground arith, ground arith))

in_front :
    (t : Trap) (ts : List Trap)
    → not (is_free t) && eq_ℤ t.position (pos 0) ≡ false
    → trap_at (pos 0) (t ∷ ts) ≢ none
    → trap_at (pos 0) ts ≢ none
in_front t ts other seen e = absurd (seen (rw (other, e) refl))

no_later :
    (page_length : ℤ) (found : Found) (ts : List Trap)
    → pos 0 <ℤ page_length
    → All (λ t. IsAhead page_length (negsuc 0) t → NotLater found (place page_length t)) ts
    → trap_at (pos 0) ts ≢ none
    → NotLater found (pos 0)
no_later page_length found [] positive all seen = absurd (seen refl)
no_later page_length found (t ∷ ts) positive (h, all) seen =
    elim (Bool-cases (not (is_free t) && eq_ℤ t.position (pos 0))) [
      | inl here ↦
          let top : t.position ≡ pos 0 = ground arith in
          rw (top-place page_length t top) at
            (h (top-IsAhead page_length t positive (ground arith) top))
      | inr other ↦ no_later page_length found ts positive all (in_front t ts other seen)
    ]

place_zero :
    (page_length : ℤ) (t : Trap)
    → IsAhead page_length (negsuc 0) t
    → place page_length t ≡ pos 0
    → t.position ≡ pos 0
place_zero page_length t (used, below, inl (top, short)) e =
    let same : place page_length t ≡ t.position = ground arith in sym same ∙ e
place_zero page_length t (used, below, inr (bottom, on)) e =
    let none_left : pos 0 <ℤ pos 0 = rw e at on in absurd (omega arith)

ahead-nonnegative :
    (page_length : ℤ) (t : Trap) → IsAhead page_length (negsuc 0) t → pos 0 ≤ℤ place page_length t
ahead-nonnegative page_length t (used, below, _) = omega arith

zero_lem : (p : ℤ) → eq_ℤ p (pos 0) ≡ true → p ≡ pos 0
zero_lem p h = ground arith

zero_test : (p : ℤ) → pos 0 ≤ℤ p → p ≤ℤ pos 0 → eq_ℤ p (pos 0) ≡ true
zero_test p low high = ground arith

-- The search from -1 ends at the top exactly if a trap is seen there.
top_found :
    (page_length : ℤ) (ts : List Trap) (found : Found)
    → pos 0 <ℤ page_length
    → Ok page_length (negsuc 0) (λ t. Mem t ts) found
    → All (λ t. IsAhead page_length (negsuc 0) t → NotLater found (place page_length t)) ts
    → (is_at_top found ≡ true) ↔ (trap_at (pos 0) ts ≢ none)
top_found page_length ts none positive ok all =
    (λ e. absurd (ground arith), λ seen. absurd (no_later page_length none ts positive all seen))
top_found page_length ts (some (t, p)) positive (member, ahead, e) all = (
  λ at. seen_at_top t ts member ahead.0 (place_zero page_length t ahead (sym e ∙ zero_lem p at)),
  λ seen.
      let le = no_later page_length (some (t, p)) ts positive all seen in
      zero_test p (rw e (ahead-nonnegative page_length t ahead)) le,
)

begin_page-steps :
    (g : Setting) (n : ℤ) (d : Top) (count number above : ℤ) (found : Found)
    → is_last_page g d ≡ false
    → plain (d.page_count +ℤ pos 1) ≡ some count
    → new_page_number d ≡ some number
    → from_units g.vresolution (minus g.vresolution) ≡ some above
    → find_next_trap d.page_length above d.page_trap_list ≡ some found
    → begin_page g n d ≡ start_page g n d count number found
unfolding begin_page
begin_page-steps g n d count number above found e0 e1 e2 e3 e4 = rw (e0, e1, e2, e3, e4) refl

if_result :
    (b : Bool) (e1 e2 : Top) (events1 events2 : List Event)
    → (e : Top) × (events : List Event) × ((if b
          then running true e1 events1
          else running false e2 events2)
        ≡ running b e events)
if_result true e1 e2 events1 events2 = (e1, events1, refl)
if_result false e1 e2 events1 events2 = (e2, events2, refl)

-- What `start_page` returns.
start_page-result :
    (g : Setting) (n : ℤ) (d : Top) (count number : ℤ) (found : Found)
    → (e : Top) × (events : List Event) × (start_page g n d count number found
        ≡ running (g.honor_vertical_position_traps && is_at_top found) e events)
unfolding start_page
start_page-result g n d count number found =
    if_result (g.honor_vertical_position_traps && is_at_top found) _ _ _ _

and_iff : (a b : Bool) (P : Type 0) → ((b ≡ true) ↔ P) → ((a && b) ≡ true) ↔ ((a ≡ true) × P)
and_iff true b P h = (λ e. (refl, h.0 e), λ (_, k). h.1 k)
and_iff false b P h = (λ e. absurd (ground arith), λ (e, _). absurd (ground arith))

some_of : (o : Option ℤ) → o ≢ none → (a : ℤ) × (o ≡ some a)
some_of none h = absurd (h refl)
some_of (some a) h = (a, refl)

-- Beginning a page that does not end the program is defined, on a page of some length, where the page
-- numbers do not overflow and the resolution is at least 1 and not huge, and it returns `true` exactly if
-- traps are honored and a trap in use is planted at the top of the page.
pub begin_page-top :
    (g : Setting) (n : ℤ) (d : Top)
    → is_last_page g d ≡ false
    → IsOnPage d
    → pos 0 <ℤ d.page_length
    → CanBegin g d
    → 1 ≤ g.vresolution
    → g.vresolution ≤ 2 ^ 29
    → (b : Bool) × (e : Top) × (events : List Event) × (begin_page g n d ≡ running b e events)
      × ((b ≡ true)
          ↔ ((g.honor_vertical_position_traps ≡ true) × (trap_at (pos 0) d.page_trap_list ≢ none)))
begin_page-top g n d goes_on (is_int, low, high, ints) positive (counts, numbers, _) unit small =
    let (count, e1) = some_of _ counts in
    let (number, e2) = some_of _ numbers in
    let (found, e4, ok, all) =
      find_next_trap-first d.page_length (negsuc 0) d.page_trap_list is_int (omega arith) ints in
    let (e, events, returns) = start_page-result g n d count number found in
    (
      g.honor_vertical_position_traps && is_at_top found,
      e,
      events,
      begin_page-steps g n d count number (negsuc 0) found goes_on e1 e2
            (above_lem g.vresolution unit small) e4
          ∙ returns,
      and_iff g.honor_vertical_position_traps (is_at_top found)
          (trap_at (pos 0) d.page_trap_list ≢ none)
          (top_found d.page_length d.page_trap_list found positive ok all),
    )
