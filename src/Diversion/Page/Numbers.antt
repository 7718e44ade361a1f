-- ===== src/Diversion/Page/Numbers.antt =====
-- The number of a page that is set in advance.
use groff.Prelude.{◌≡◌, refl, sym, ap, ◌∙◌, ◌&&◌, some, arith, ℤ, pos, ◌+ℤ◌, minus}
use groff.Units.{plain, from_units}
use groff.Diversion.Traps.{Found, find_next_trap}
use groff.Diversion.Page.{
  Top, Setting, is_last_page, new_page_number, page_begun, start_page, begin_page, is_at_top,
  get_next_page_number, set_next_page_number,
}
use groff.Diversion.Page.Moves.{Leaves, Leaves-from_option, Leaves-if, IsOnPage, CanBegin, finds}

-- The page has the number `n`, and that of the next is one more.
abbrev pub IsNumbered : ℤ → ℤ → Top → Type 0
IsNumbered n count d =
    (d.page_number ≡ n) × (d.page_count ≡ count) × (get_next_page_number d ≡ plain (n +ℤ pos 1))

start_page-IsNumbered :
    (g : Setting) (m : ℤ) (d : Top) (count number : ℤ) (found : Found) (n c : ℤ)
    → number ≡ n
    → count ≡ c
    → Leaves Unit (IsNumbered n c) (start_page g m d count number found)
unfolding start_page page_begun get_next_page_number
start_page-IsNumbered g m d count number found n c same counted =
    let next = ap (λ k. plain (k +ℤ pos 1)) same in
    Leaves-if Unit (IsNumbered n c) (g.honor_vertical_position_traps && is_at_top found) _ _
      (λ sprung. (same, counted, next)) (λ quiet. (same, counted, next))

plain-some : (z a : ℤ) → plain z ≡ some a → z ≡ a
unfolding plain
plain-some z a e = ground arith

some_eq : (a b : ℤ) → some a ≡ some b → a ≡ b
some_eq a b e = ground arith

new_page_number-set_next_page_number :
    (n : ℤ) (d : Top) → new_page_number (set_next_page_number n d) ≡ some n
unfolding new_page_number set_next_page_number
new_page_number-set_next_page_number n d = refl

-- A page that begins after its number was set has that number, whatever the status of the first page, and
-- is counted; the page after it goes on from that number. Beginning it is defined where the numbers do not
-- overflow, and goes on or ends the program.
pub begin_page-set_next_page_number :
    (g : Setting) (m n : ℤ) (d : Top)
    → IsOnPage d
    → CanBegin g (set_next_page_number n d)
    → Leaves Unit (IsNumbered n (d.page_count +ℤ pos 1)) (begin_page g m (set_next_page_number n d))
unfolding begin_page set_next_page_number
begin_page-set_next_page_number g m n d on (counts, numbers, resolves) =
    let P = IsNumbered n (d.page_count +ℤ pos 1) in
    Leaves-if Unit P (is_last_page g (set_next_page_number n d)) _ _ (λ last. tt)
      (λ more. Leaves-from_option Unit P (plain (d.page_count +ℤ pos 1)) _ counts (λ count e1.
        Leaves-from_option Unit P (new_page_number (set_next_page_number n d)) _ numbers
          (λ number e2.
            Leaves-from_option Unit P (from_units g.vresolution (minus g.vresolution)) _ resolves
              (λ above e3.
                Leaves-from_option Unit P (find_next_trap d.page_length above d.page_trap_list)
                  (start_page g m (set_next_page_number n d) count number) (finds d on above)
                  (λ found e4.
                    start_page-IsNumbered g m (set_next_page_number n d) count number found n
                      (d.page_count +ℤ pos 1)
                      (some_eq number n (sym e2 ∙ new_page_number-set_next_page_number n d))
                      (sym (plain-some (d.page_count +ℤ pos 1) count e1)))))))
