-- ===== src/Base/Text.antt =====
-- Texts as code points, for the checks that walk a text.
use Prim.Native.Char.{Char, code}
use poor_travel_agent.Base.{
  ℕ, zero, suc, ◌/◌, ◌%◌, ◌≡◌, refl, String, List, [], ◌∷◌, Bool, ◌&&◌, ◌||◌, true, false, leb, ltb,
  eqb, if◌then◌else◌,
}

abbrev pub codes : String → List ℕ
codes String.[] = []
codes (String.◌∷◌ c s) = code c ∷ codes s

-- [A-Za-z0-9]
unfoldable pub is_alphanumeric : ℕ → Bool
is_alphanumeric c = leb b'A' c && leb c b'Z' || leb b'a' c && leb c b'z' || leb b'0' c && leb c b'9'

-- `str.isspace` of one character
unfoldable pub is_space : ℕ → Bool
is_space c =
    leb 9 c && leb c 13
    || leb 28 c && leb c 32
    || eqb c 0x85
    || eqb c 0xa0
    || eqb c 0x1680
    || leb 0x2000 c && leb c 0x200a
    || eqb c 0x2028
    || eqb c 0x2029
    || eqb c 0x202f
    || eqb c 0x205f
    || eqb c 0x3000

strip_left : List ℕ → List ℕ
strip_left [] = []
strip_left (c ∷ cs) = let rest = strip_left cs in if is_space c then rest else c ∷ cs

-- A character in front of a text that is stripped on the right.
cons_kept : ℕ → List ℕ → List ℕ
cons_kept c [] = if is_space c then [] else c ∷ []
cons_kept c (d ∷ ds) = c ∷ d ∷ ds

strip_right : List ℕ → List ℕ
strip_right [] = []
strip_right (c ∷ cs) = cons_kept c (strip_right cs)

-- `str.strip`, on code points
unfoldable pub strip : List ℕ → List ℕ
unfolding strip_left strip_right cons_kept is_space
strip cs = strip_right (strip_left cs)

digit : ℕ → Char
digit zero = "0"
digit (suc zero) = "1"
digit (suc (suc zero)) = "2"
digit (suc (suc (suc zero))) = "3"
digit (suc (suc (suc (suc zero)))) = "4"
digit (suc (suc (suc (suc (suc zero))))) = "5"
digit (suc (suc (suc (suc (suc (suc zero)))))) = "6"
digit (suc (suc (suc (suc (suc (suc (suc zero))))))) = "7"
digit (suc (suc (suc (suc (suc (suc (suc (suc zero)))))))) = "8"
digit _ = "9"

-- The digits of a number in front of a text; the fuel is at least the number.
decimal_onto : ℕ → ℕ → String → String
decimal_onto zero n rest = String.◌∷◌ (digit (n % 10)) rest
decimal_onto (suc fuel) n rest =
    let onto = String.◌∷◌ (digit (n % 10)) rest in
    let more = decimal_onto fuel (n / 10) onto in if ltb n 10 then onto else more

-- `str(n)`
unfoldable pub decimal : ℕ → String
unfolding decimal_onto digit
decimal n = decimal_onto n n String.[]

decimal_test : decimal 2049 ≡ "2049"
unfolding decimal
decimal_test = refl

strip_test : strip (codes "  a b ") ≡ codes "a b"
unfolding strip
strip_test = refl

-- " ".join(value.split()); the flags say that a word came before, and a gap after it
unfoldable pub join_words : Bool → Bool → List ℕ → List ℕ
join_words seen gap [] = []
join_words seen gap (x ∷ xs) =
    let after_gap = join_words seen true xs in
    let rest = join_words true false xs in
    if is_space x then after_gap else (if seen && gap then 32 ∷ x ∷ rest else x ∷ rest)
