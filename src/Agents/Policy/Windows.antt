-- ===== src/Agents/Policy/Windows.antt =====
-- A window is read back as it was printed, and it covers the day together with its complement.
use aiman.Base.{ℕ, ◌+◌, ◌/◌, ◌%◌, ◌<◌, ◌≡◌, ◌≢◌, refl, true, false, not, [], ◌∷◌, some, arith}
use aiman.Base.Space.{is_space}
use aiman.Base.Fields.{trim, trim_none}
use aiman.Agents.Policy.{
  Window, ok, is_digit, two_digits, clock, match_clock, window_of, parse_trimmed, parse_window,
  contains, to_string,
}

-- What `ParseWindow` makes.
pub record IsWindow (w : Window) : Type 0 where
  pub start_lt : w.start < 1440
  pub end_lt : w.end < 1440
  pub proper : w.start ≢ w.end

-- The two windows between the same two times share no minute and leave none out.
pub contains_swap :
    (w : Window) (m : ℕ)
    → w.start ≢ w.end
    → contains (record { start = w.end; end = w.start }) m ≡ not (contains w m)
unfolding contains
contains_swap w m ne = ground arith

div_digit :
    (n : ℕ)
    → n < 100
    → (is_digit (b'0' + n / 10) ≡ true)
      × (is_digit (b'0' + n % 10) ≡ true)
      × (two_digits (b'0' + n / 10) (b'0' + n % 10) ≡ n)
div_digit n l = (ground arith, ground arith, omega arith)

clock-div : (t : ℕ) → t < 1440 → clock (t / 60) (t % 60) ≡ some t
unfolding clock
clock-div t l = ground arith

match_clock-pad :
    (t : ℕ)
    → t < 1440
    → match_clock
        (b'0' + t / 60 / 10)
        (b'0' + t / 60 % 10)
        b':'
        (b'0' + t % 60 / 10)
        (b'0' + t % 60 % 10)
      ≡ true
unfolding match_clock
match_clock-pad t l =
    let (a, b, _) = div_digit (t / 60) (omega arith) in
    let (c, d, _) = div_digit (t % 60) (omega arith) in rw (a, b, c, d) refl

clock-pad :
    (t : ℕ)
    → t < 1440
    → clock
        (two_digits (b'0' + t / 60 / 10) (b'0' + t / 60 % 10))
        (two_digits (b'0' + t % 60 / 10) (b'0' + t % 60 % 10))
      ≡ some t
clock-pad t l =
    let (_, _, h) = div_digit (t / 60) (omega arith) in
    let (_, _, m) = div_digit (t % 60) (omega arith) in rw (h, m) (clock-div t l)

is_space-digit : (c : ℕ) → is_digit c ≡ true → is_space c ≡ false
unfolding is_space
is_space-digit c e = ground arith

-- No white space is at either end.
trim-to_string :
    (a b x c d dash e f y g h : ℕ)
    → is_space a ≡ false
    → is_space h ≡ false
    → trim (a ∷ b ∷ x ∷ c ∷ d ∷ dash ∷ e ∷ f ∷ y ∷ g ∷ h ∷ [])
      ≡ a ∷ b ∷ x ∷ c ∷ d ∷ dash ∷ e ∷ f ∷ y ∷ g ∷ h ∷ []
trim-to_string a b x c d dash e f y g h p q =
    trim_none a (b ∷ x ∷ c ∷ d ∷ dash ∷ e ∷ f ∷ y ∷ g ∷ []) h p q

-- A window as `ParseWindow` makes it is read back as itself from its text.
pub parse_window-to_string : (w : Window) → IsWindow w → parse_window (to_string w) ≡ ok w
unfolding parse_window to_string parse_trimmed window_of
parse_window-to_string w v =
    let (first, _, _) = div_digit (w.start / 60) (omega (arith, v.start_lt)) in
    let (_, last, _) = div_digit (w.end % 60) (omega (arith, v.end_lt)) in
    rw
      (trim-to_string (b'0' + w.start / 60 / 10) (b'0' + w.start / 60 % 10) b':'
        (b'0' + w.start % 60 / 10) (b'0' + w.start % 60 % 10) b'-' (b'0' + w.end / 60 / 10)
        (b'0' + w.end / 60 % 10) b':' (b'0' + w.end % 60 / 10) (b'0' + w.end % 60 % 10)
        (is_space-digit _ first) (is_space-digit _ last))
      (rw
        (
          match_clock-pad w.start v.start_lt,
          match_clock-pad w.end v.end_lt,
          clock-pad w.start v.start_lt,
          clock-pad w.end v.end_lt,
        )
        (ground (arith, v.proper)))
