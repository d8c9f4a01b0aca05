-- ===== src/CText.antt =====
-- The functions of the C library that the FTP code calls on strings: `isdigit`, `isspace`, `atoi`,
-- `sscanf` and `sprintf` with `%d`. A string is the list of its bytes, with no NUL among them.
-- Numbers that overflow an `int` are left out: the standard leaves those undefined.
pub mod Decimal
use c10kcode.Common.{
  ℕ, zero, suc, ◌+◌, ◌-◌, ◌*◌, ◌/◌, ◌%◌, Bool, true, false, ◌&&◌, ◌||◌, Option, none, some, List,
  [], ◌∷◌, ◌++◌, ltb, leb, ◌==◌, if◌then◌else◌, length,
}

-- `negsuc n` is -(n + 1).
pub data ℤ : Type 0 where
  pos : ℕ → ℤ
  negsuc : ℕ → ℤ

abbrev pub is_digit : ℕ → Bool
is_digit c = leb b'0' c && leb c b'9'

-- Space, \t, \n, \v, \f and \r
abbrev pub is_space : ℕ → Bool
is_space c = c == b' ' || (leb 9 c && leb c 13)

abbrev pub skip_spaces : List ℕ → List ℕ
skip_spaces [] = []
skip_spaces (c ∷ cs) = if is_space c then skip_spaces cs else c ∷ cs

-- The value of the digits at the front, behind `n`, and what follows them.
pub digits : ℕ → List ℕ → ℕ × List ℕ
digits n [] = (n, [])
digits n (c ∷ cs) =
    let more = digits (n * 10 + (c - b'0')) cs in if is_digit c then more else (n, c ∷ cs)

-- The digits at the front; there must be one.
pub number : List ℕ → Option (ℕ × List ℕ)
unfolding digits
number [] = none
number (c ∷ cs) = if is_digit c then some (digits 0 (c ∷ cs)) else none

abbrev pub negated : ℕ → ℤ
negated zero = pos 0
negated (suc n) = negsuc n

abbrev pub positive : Option (ℕ × List ℕ) → Option (ℤ × List ℕ)
positive none = none
positive (some (n, cs)) = some (pos n, cs)

abbrev pub negative : Option (ℕ × List ℕ) → Option (ℤ × List ℕ)
negative none = none
negative (some (n, cs)) = some (negated n, cs)

abbrev pub signed : List ℕ → Option (ℤ × List ℕ)
signed [] = none
signed (c ∷ cs) =
    if c == b'-'
    then negative (number cs)
    else if c == b'+'
    then positive (number cs)
    else positive (number (c ∷ cs))

-- `%d` of `sscanf`: the number, and what follows it.
unfoldable pub scan_int : List ℕ → Option (ℤ × List ℕ)
unfolding number
scan_int cs = signed (skip_spaces cs)

-- `atoi`, which is 0 where there is no number.
unfoldable pub atoi : List ℕ → ℤ
unfolding scan_int
atoi cs = elim (scan_int cs) [ none ↦ pos 0 | some (z, _) ↦ z ]

-- The digits of `n`, in front of `cs`; the first argument is fuel.
pub decimal_loop : ℕ → ℕ → List ℕ → List ℕ
decimal_loop zero n cs = cs
decimal_loop (suc fuel) n cs =
    let more = decimal_loop fuel (n / 10) ((b'0' + n % 10) ∷ cs) in
    if ltb n 10 then (b'0' + n) ∷ cs else more

-- `%d` of `sprintf`, for a number that is not negative.
unfoldable pub decimal : ℕ → List ℕ
unfolding decimal_loop
decimal n = decimal_loop (suc n) n []

abbrev pub int_eq : ℤ → ℤ → Bool
int_eq (pos a) (pos b) = a == b
int_eq (negsuc a) (negsuc b) = a == b
int_eq (pos a) (negsuc b) = false
int_eq (negsuc a) (pos b) = false

-- `lo <= z && z < hi`
abbrev pub within : ℕ → ℕ → ℤ → Bool
within lo hi (pos n) = leb lo n && ltb n hi
within lo hi (negsuc n) = false

-- `(unsigned char)z`
abbrev pub to_byte : ℤ → ℕ
to_byte (pos n) = n % 256
to_byte (negsuc n) = (255 - n % 256)
