-- ===== src/Util/Numbers.antt =====
-- Numbers and their decimal texts: intToString and stringToInt of server/hoxUtil.cpp, which call
-- snprintf with "%d" and atoi. Values beyond the range of `int` are not cut off.
use hox_server.Prelude.{
  ℕ, zero, suc, ◌+◌, ◌-◌, ◌*◌, ◌/◌, ◌%◌, ◌<◌, ◌≡◌, refl, ◌∙◌, ap, arith, Bool, true, false, ◌&&◌,
  ◌||◌, ltb, leb, ◌==◌, [], ◌∷◌, ◌++◌, append_assoc, Bool-cases, inl, inr, if◌then◌else◌,
}
use hox_server.Prelude.{contains, ℤ, pos, negsuc, sub_ℕ}
use hox_server.Table.State.{Text}

-- The digits of a number, on fuel.
unfoldable pub digits : ℕ → ℕ → Text
digits zero n = []
digits (suc fuel) n = elim (ltb n 10) [
  | true ↦ (48 + n) ∷ []
  | false ↦ digits fuel (n / 10) ++ (48 + n % 10) ∷ []
]

unfoldable pub decimal : ℕ → Text
unfolding digits
decimal n = digits (suc n) n

-- hoxUtil::intToString, and `outStream << number`.
unfoldable pub int_to_string : ℤ → Text
unfolding decimal
int_to_string (pos n) = decimal n
int_to_string (negsuc n) = b'-' ∷ decimal (suc n)

abbrev pub is_digit : ℕ → Bool
is_digit c = leb 48 c && leb c 57

abbrev pub is_space : ℕ → Bool
is_space c = c == 32 || leb 9 c && leb c 13

-- The digits at the start of a text, after the number that was read so far.
unfoldable pub read_digits : ℕ → Text → ℕ
read_digits n [] = n
read_digits n (c ∷ s) = elim (is_digit c) [ true ↦ read_digits (n * 10 + (c - 48)) s | false ↦ n ]

unfoldable pub read_signed : Text → ℤ
unfolding read_digits
read_signed [] = pos 0
read_signed (c ∷ s) =
    if c == b'-'
    then sub_ℕ 0 (read_digits 0 s)
    else if c == b'+'
    then pos (read_digits 0 s)
    else pos (read_digits 0 (c ∷ s))

-- hoxUtil::stringToInt: white space, a sign, digits; what follows is ignored.
unfoldable pub string_to_int : Text → ℤ
unfolding read_signed
string_to_int [] = pos 0
string_to_int (c ∷ s) =
    let rest = string_to_int s in if is_space c then rest else read_signed (c ∷ s)

pub read_digits-digits :
    (fuel n : ℕ) (s : Text) → n < fuel → read_digits 0 (digits fuel n ++ s) ≡ read_digits n s
unfolding digits read_digits
read_digits-digits zero n s h = omega (arith, h)
read_digits-digits (suc fuel) n s h = elim (Bool-cases (ltb n 10)) [
  | inl small ↦ rw (small, digits) (ground arith)
  | inr large ↦
      rw (large, digits)
        (ap (read_digits 0) (append_assoc (digits fuel (n / 10)) ((48 + n % 10) ∷ []) s)
          ∙ read_digits-digits fuel (n / 10) ((48 + n % 10) ∷ s) (ground arith)
          ∙ ground arith)
]

-- What follows a number and ends it.
unfoldable pub ends_number : Text → Bool
ends_number [] = true
ends_number (c ∷ s) = if is_digit c then false else true

pub ends_number-nil : ends_number [] ≡ true
unfolding ends_number
ends_number-nil = refl

read_digits-end : (n : ℕ) (s : Text) → ends_number s ≡ true → read_digits n s ≡ n
unfolding read_digits ends_number
read_digits-end n [] h = refl
read_digits-end n (c ∷ s) h = ground (arith, h)

pub read_digits-decimal :
    (n : ℕ) (s : Text) → ends_number s ≡ true → read_digits 0 (decimal n ++ s) ≡ n
unfolding decimal
read_digits-decimal n s h = read_digits-digits (suc n) n s (omega arith) ∙ read_digits-end n s h

unfoldable pub only_digits : Text → Bool
only_digits [] = true
only_digits (c ∷ s) = is_digit c && only_digits s

abbrev pub is_empty_text : Text → Bool
is_empty_text [] = true
is_empty_text (c ∷ s) = false

only_digits-append :
    (s : Text) (c : ℕ) → only_digits s ≡ true → is_digit c ≡ true → only_digits (s ++ c ∷ []) ≡ true
unfolding only_digits
only_digits-append [] c h k = ground (arith, k)
only_digits-append (d ∷ s) c h k = ground (arith, h, only_digits-append s c)

only_digits-digits : (fuel n : ℕ) → only_digits (digits fuel n) ≡ true
unfolding only_digits digits
only_digits-digits zero n = refl
only_digits-digits (suc fuel) n = elim (Bool-cases (ltb n 10)) [
  | inl small ↦ rw (small, digits) (ground arith)
  | inr large ↦
      rw (large, digits)
        (only_digits-append (digits fuel (n / 10)) (48 + n % 10) (only_digits-digits fuel (n / 10))
          (ground arith))
]

is_empty_text-append : (s : Text) (c : ℕ) → is_empty_text (s ++ c ∷ []) ≡ false
is_empty_text-append [] c = refl
is_empty_text-append (d ∷ s) c = refl

-- A number is written with digits alone, one at least.
pub only_digits-decimal : (n : ℕ) → only_digits (decimal n) ≡ true
unfolding decimal
only_digits-decimal n = only_digits-digits (suc n) n

pub is_empty_text-decimal : (n : ℕ) → is_empty_text (decimal n) ≡ false
unfolding decimal digits
is_empty_text-decimal n = elim (Bool-cases (ltb n 10)) [
  | inl small ↦ rw (small, digits) refl
  | inr large ↦ rw (large, digits) (is_empty_text-append (digits n (n / 10)) (48 + n % 10))
]

string_to_int-digits :
    (s rest : Text)
    → only_digits s ≡ true
    → is_empty_text s ≡ false
    → string_to_int (s ++ rest) ≡ pos (read_digits 0 (s ++ rest))
unfolding string_to_int read_signed only_digits
string_to_int-digits [] rest h k = cc
string_to_int-digits (c ∷ s) rest h k = ground (arith, h)

string_to_int-minus : (s : Text) → string_to_int (b'-' ∷ s) ≡ sub_ℕ 0 (read_digits 0 s)
unfolding string_to_int read_signed
string_to_int-minus s = refl

sub_suc : (n : ℕ) → sub_ℕ 0 (suc n) ≡ negsuc n
sub_suc n = ground arith

-- A number is read back from its text, whatever follows, if no digit follows.
pub string_to_int-int_to_string :
    (z : ℤ) (rest : Text) → ends_number rest ≡ true → string_to_int (int_to_string z ++ rest) ≡ z
unfolding int_to_string
string_to_int-int_to_string (pos n) rest h =
    string_to_int-digits (decimal n) rest (only_digits-decimal n) (is_empty_text-decimal n)
    ∙ ap pos (read_digits-decimal n rest h)
string_to_int-int_to_string (negsuc n) rest h =
    string_to_int-minus (decimal (suc n) ++ rest)
    ∙ ap (sub_ℕ 0) (read_digits-decimal (suc n) rest h)
    ∙ sub_suc n

contains-only_digits :
    (c : ℕ) (s : Text) → only_digits s ≡ true → is_digit c ≡ false → contains c s ≡ false
unfolding contains only_digits
contains-only_digits c [] h k = refl
contains-only_digits c (d ∷ s) h k = ground (arith, h, k, contains-only_digits c s)

contains-minus :
    (c : ℕ) (s : Text) → (c == b'-') ≡ false → contains c s ≡ false → contains c (b'-' ∷ s) ≡ false
unfolding contains
contains-minus c s h k = ground (arith, h, k)

-- No other byte than a digit or the sign stands in the text of a number.
pub contains-int_to_string :
    (c : ℕ) (z : ℤ)
    → is_digit c ≡ false
    → (c == b'-') ≡ false
    → contains c (int_to_string z) ≡ false
unfolding int_to_string
contains-int_to_string c (pos n) h k = contains-only_digits c (decimal n) (only_digits-decimal n) h
contains-int_to_string c (negsuc n) h k =
    contains-minus c (decimal (suc n)) k
      (contains-only_digits c (decimal (suc n)) (only_digits-decimal (suc n)) h)

pub is_empty_text-int_to_string : (z : ℤ) → is_empty_text (int_to_string z) ≡ false
unfolding int_to_string
is_empty_text-int_to_string (pos n) = is_empty_text-decimal n
is_empty_text-int_to_string (negsuc n) = refl
