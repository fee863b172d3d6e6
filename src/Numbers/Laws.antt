-- ===== src/Numbers/Laws.antt =====
-- src/num.cpp: what is read of a number that was written in decimal.
use mergerfs.Base.{
  ℕ, suc, zero, append-nil, ◌+◌, ◌-◌, ◌*◌, ◌%◌, ◌/◌, ◌<◌, ◌≡◌, refl, sym, ◌∙◌, true, false, [], ◌∷◌,
  ◌++◌, Str, some, inl, inr, ap, Bool-cases, arith, leb, ltb, if◌then◌else◌,
}
use mergerfs.StatVfs.{u64_mod}
use mergerfs.Strings.Laws.{Lacks, c_str-Lacks}
use mergerfs.Numbers.{
  is_digit, skip_spaces, sign, starts_number, read_digits, clamp, strtoll, as_u64, factor, scaled,
  to_uint64_t, to_time_t, at_end, digits_on, decimal, llong_max,
}

digit-is_digit : (n : ℕ) → is_digit (b'0' + n % 10) ≡ true
digit-is_digit n = ground arith

digits_on-starts :
    (fuel n : ℕ) (s : Str) → starts_number s ≡ true → starts_number (digits_on fuel n s) ≡ true
unfolding starts_number digits_on
digits_on-starts zero n s h = h
digits_on-starts (suc fuel) n s h = elim (Bool-cases (ltb n 10)) [
  | inl last ↦ rw last (digit-is_digit n)
  | inr more ↦ rw more (digits_on-starts fuel (n / 10) _ (digit-is_digit n))
]

decimal-starts : (n : ℕ) (s : Str) → starts_number (digits_on (suc n) n s) ≡ true
unfolding starts_number digits_on
decimal-starts n s = elim (Bool-cases (ltb n 10)) [
  | inl last ↦ rw last (digit-is_digit n)
  | inr more ↦ rw more (digits_on-starts n (n / 10) _ (digit-is_digit n))
]

skip_spaces-starts : (s : Str) → starts_number s ≡ true → skip_spaces s ≡ s
unfolding starts_number skip_spaces
skip_spaces-starts [] h = refl
skip_spaces-starts (c ∷ s) h = ground arith

sign-starts : (s : Str) → starts_number s ≡ true → sign s ≡ (false, s)
unfolding starts_number sign
sign-starts [] h = refl
sign-starts (c ∷ s) h = ground arith

read_digits-digit :
    (m n : ℕ) (s : Str) → read_digits m ((b'0' + n % 10) ∷ s) ≡ read_digits (10 * m + n % 10) s
unfolding read_digits
read_digits-digit m n s =
    let same : b'0' + n % 10 - b'0' ≡ n % 10 = omega arith in rw (digit-is_digit n, same) refl

read_digits-digits_on :
    (fuel n : ℕ) (s : Str) → n < fuel → read_digits 0 (digits_on fuel n s) ≡ read_digits n s
unfolding digits_on
read_digits-digits_on zero n s h = absurd (omega arith)
read_digits-digits_on (suc fuel) n s h = elim (Bool-cases (ltb n 10)) [
  | inl last ↦
      let small : 10 * 0 + n % 10 ≡ n = ground arith in
      rw last (read_digits-digit 0 n s ∙ ap (λ m. read_digits m s) small)
  | inr more ↦
      let whole : 10 * (n / 10) + n % 10 ≡ n = omega arith in
      rw more (
        read_digits-digits_on fuel (n / 10) _ (ground arith)
        ∙ read_digits-digit (n / 10) n s
        ∙ ap (λ m. read_digits m s) whole)
]

read_digits-starts : (n : ℕ) (t : Str) → starts_number t ≡ false → read_digits n t ≡ (n, t)
unfolding read_digits starts_number
read_digits-starts n [] h = refl
read_digits-starts n (c ∷ t) h = rw h refl

digits_on-append : (fuel n : ℕ) (s t : Str) → digits_on fuel n s ++ t ≡ digits_on fuel n (s ++ t)
unfolding digits_on
digits_on-append zero n s t = refl
digits_on-append (suc fuel) n s t = elim (Bool-cases (ltb n 10)) [
  | inl last ↦ rw (digits_on, last) refl
  | inr more ↦ rw (digits_on, more) (digits_on-append fuel (n / 10) _ t)
]

digits_on-Lacks : (fuel n : ℕ) (s : Str) → Lacks 0 s → Lacks 0 (digits_on fuel n s)
unfolding digits_on
digits_on-Lacks zero n s h = h
digits_on-Lacks (suc fuel) n s h = elim (Bool-cases (ltb n 10)) [
  | inl last ↦ rw (digits_on, last) ((omega arith), h)
  | inr more ↦ rw (digits_on, more) (digits_on-Lacks fuel (n / 10) _ ((omega arith), h))
]

-- What `strtoll` finds: the number, at most the largest `long long`, and what follows it.
strtoll-digits_on :
    (n : ℕ) (t : Str)
    → starts_number t ≡ false
    → strtoll (digits_on (suc n) n t) ≡ (clamp false n, t)
unfolding strtoll
strtoll-digits_on n t h =
    let starts = decimal-starts n t in
    rw (strtoll, skip_spaces-starts _ starts)
      (rw (sign-starts _ starts) (
        rw (starts, read_digits-digits_on (suc n) n t (omega arith), read_digits-starts n t h)
          refl))

as_u64-clamp : (n : ℕ) → as_u64 (clamp false n) ≡ (if leb n llong_max then n else llong_max)
unfolding as_u64 clamp
as_u64-clamp n = ground arith

-- A number written in decimal, with some text behind it that has no NUL and starts with no digit,
-- is read as that number, or as 2^63 - 1 where it is larger, times the factor that the first byte
-- behind the digits stands for, in 64 bits. It is refused if that byte stands for no factor, and
-- what follows that byte is not read.
pub to_uint64_t-decimal :
    (n : ℕ) (t : Str)
    → starts_number t ≡ false
    → Lacks 0 t
    → to_uint64_t (decimal n ++ t) ≡ scaled (if leb n llong_max then n else llong_max) (factor t)
unfolding to_uint64_t decimal
to_uint64_t-decimal n t h lacks =
    rw (digits_on-append (suc n) n [] t, c_str-Lacks _ (digits_on-Lacks (suc n) n t lacks))
      (rw (strtoll-digits_on n t h) (rw (as_u64-clamp n) refl))

-- The two numbers of the configuration, as they are written and read.
pub to_uint64_t-decimal_small : (n : ℕ) → leb n llong_max ≡ true → to_uint64_t (decimal n) ≡ some n
unfolding scaled factor starts_number
to_uint64_t-decimal_small n h =
    let same : n * 1 % u64_mod ≡ n = ground arith in
    ap to_uint64_t (sym (append-nil (decimal n)))
    ∙ to_uint64_t-decimal n [] refl tt
    ∙ rw h (ap some same)

pub to_time_t-decimal : (n : ℕ) → leb n llong_max ≡ true → to_time_t (decimal n) ≡ some n
unfolding to_time_t decimal clamp at_end starts_number
to_time_t-decimal n h =
    rw (c_str-Lacks _ (digits_on-Lacks (suc n) n [] tt))
      (rw (strtoll-digits_on n [] refl) (rw h refl))
