-- ===== src/Numbers.antt =====
-- src/num.cpp: numbers from text, with C's `strtoll` in base ten.
pub mod Laws
use mergerfs.Base.{
  ℕ, zero, suc, ◌+◌, ◌-◌, ◌*◌, ◌%◌, ◌/◌, ◌^◌, ℤ, pos, negsuc, neg_of, Bool, true, false, ◌&&◌, ◌||◌,
  [], ◌∷◌, Str, Option, none, some, ◌==◌, leb, ltb, if◌then◌else◌,
}
use mergerfs.StatVfs.{u64_mod}
use mergerfs.Strings.{c_str}

abbrev pub is_digit : ℕ → Bool
is_digit c = leb b'0' c && leb c b'9'

-- `isspace` in C's own locale.
abbrev pub is_space : ℕ → Bool
is_space c = (c == b' ') || (leb 9 c && leb c 13)

unfoldable pub skip_spaces : Str → Str
skip_spaces [] = []
skip_spaces (c ∷ s) = if is_space c then skip_spaces s else c ∷ s

-- Whether there is a minus, and what follows the sign.
unfoldable pub sign : Str → Bool × Str
sign [] = (false, [])
sign (c ∷ s) = if c == b'-' then (true, s) else if c == b'+' then (false, s) else (false, c ∷ s)

unfoldable pub starts_number : Str → Bool
starts_number [] = false
starts_number (c ∷ s) = is_digit c

-- The digits that stand first, and what follows them.
unfoldable pub read_digits : ℕ → Str → ℕ × Str
read_digits n [] = (n, [])
read_digits n (c ∷ s) =
    let more = read_digits (10 * n + (c - b'0')) s in if is_digit c then more else (n, c ∷ s)

abbrev pub llong_max : ℕ
llong_max = 2 ^ 63 - 1

-- The nearest value of a `long long`.
unfoldable pub clamp : Bool → ℕ → ℤ
clamp false n = pos (if leb n llong_max then n else llong_max)
clamp true n = neg_of (if leb n (suc llong_max) then n else suc llong_max)

-- The value, and the text from `endptr` on: all of it, if there is no number.
unfoldable pub strtoll : Str → ℤ × Str
unfolding skip_spaces sign starts_number read_digits clamp
strtoll s =
    let (minus, t) = sign (skip_spaces s) in
    let (n, rest) = read_digits 0 t in if starts_number t then (clamp minus n, rest) else (pos 0, s)

-- The conversion to `uint64_t`.
unfoldable pub as_u64 : ℤ → ℕ
as_u64 (pos n) = n % u64_mod
as_u64 (negsuc n) = u64_mod - 1 - n % u64_mod

-- `switch(*endptr)`: the factor, if the byte is one of those that the code takes.
unfoldable pub factor : Str → Option ℕ
factor [] = some 1
factor (c ∷ s) =
    if (c == b'k') || (c == b'K')
    then some 1024
    else if (c == b'm') || (c == b'M')
    then some (1024 ^ 2)
    else if (c == b'g') || (c == b'G')
    then some (1024 ^ 3)
    else if (c == b't') || (c == b'T')
    then some (1024 ^ 4)
    else none

-- `tmp *= ...`, in 64 bits.
unfoldable pub scaled : ℕ → Option ℕ → Option ℕ
scaled tmp none = none
scaled tmp (some f) = some (tmp * f % u64_mod)

unfoldable pub to_uint64_t : Str → Option ℕ
unfolding strtoll as_u64 factor scaled c_str
to_uint64_t str = let (v, rest) = strtoll (c_str str) in scaled (as_u64 v) (factor rest)

unfoldable pub at_end : ℤ → Str → Option ℕ
at_end (pos n) [] = some n
at_end v rest = none

unfoldable pub to_time_t : Str → Option ℕ
unfolding strtoll at_end c_str
to_time_t str = let (v, rest) = strtoll (c_str str) in at_end v rest

-- A `uint64_t` as a stream writes it: the last digit, after those of a tenth, if there are more.
unfoldable pub digits_on : ℕ → ℕ → Str → Str
digits_on zero n s = s
digits_on (suc fuel) n s =
    let here = (b'0' + n % 10) ∷ s in
    let more = digits_on fuel (n / 10) here in if ltb n 10 then here else more

unfoldable pub decimal : ℕ → Str
unfolding digits_on
decimal n = digits_on (suc n) n []
