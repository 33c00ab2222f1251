-- ===== src/Stomp/Stoi.antt =====
-- `std::stoi` in base 10, of the standard library: white space, a sign, digits, and the rest ignored.
use learncppthroughprojects.Prelude.{
  ℕ, ◌+◌, ◌-◌, ◌*◌, ◌^◌, Bool, false, ◌&&◌, ◌||◌, [], ◌∷◌, Text, Outcome, returns, throws,
  invalid_argument, out_of_range, ltb, leb, if◌then◌else◌, ◌==◌, nat_eq,
}
use learncppthroughprojects.Prelude.Int.{ℤ, pos, negsuc}

abbrev is_digit : ℕ → Bool
is_digit c = leb b'0' c && leb c b'9'

abbrev is_space : ℕ → Bool
is_space c = c == b' ' || leb 9 c && leb c 13

unfoldable pub skip_space : Text → Text
skip_space [] = []
skip_space (c ∷ cs) = if is_space c then skip_space cs else c ∷ cs

-- The value of the digits at the head, after those of `acc`.
unfoldable pub digits_value : ℕ → Text → ℕ
digits_value acc [] = acc
digits_value acc (c ∷ cs) = if is_digit c then digits_value (acc * 10 + (c - b'0')) cs else acc

abbrev starts_with_digit : Text → Bool
starts_with_digit [] = false
starts_with_digit (c ∷ _) = is_digit c

abbrev pub int_max : ℕ
int_max = 2 ^ 31 - 1

unfoldable pub stoi_positive : Text → Outcome ℤ
stoi_positive s =
    if starts_with_digit s
    then (let n = digits_value 0 s in
        if ltb int_max n then throws out_of_range else returns (pos n))
    else throws invalid_argument

unfoldable pub stoi_negative : Text → Outcome ℤ
stoi_negative s =
    if starts_with_digit s
    then (let n = digits_value 0 s in
        if ltb (int_max + 1) n
        then throws out_of_range
        else if n == 0
        then returns (pos 0)
        else returns (negsuc (n - 1)))
    else throws invalid_argument

abbrev stoi_signed : Text → Outcome ℤ
stoi_signed [] = throws invalid_argument
stoi_signed (c ∷ cs) =
    if c == b'-'
    then stoi_negative cs
    else if c == b'+'
    then stoi_positive cs
    else stoi_positive (c ∷ cs)

unfoldable pub stoi : Text → Outcome ℤ
unfolding skip_space digits_value stoi_positive stoi_negative
stoi s = stoi_signed (skip_space s)

-- The conversion of an `int` to `size_t` in a comparison with one.
abbrev pub to_size_t : ℤ → ℕ
to_size_t (pos n) = n
to_size_t (negsuc n) = 2 ^ 64 - 1 - n
