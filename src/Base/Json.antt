-- ===== src/Base/Json.antt =====
-- Python values that may be JSON: what `json.dumps` and `json.loads` see, and the size of the text
-- that `json.dumps` writes with ensure_ascii=False and the separators "," and ":".
use poor_travel_agent.Base.{
  ℕ, zero, suc, ◌+◌, ◌/◌, ◌≡◌, refl, String, List, [], ◌∷◌, Bool, true, false, ◌&&◌, ◌||◌, Option,
  none, some, ltb, eqb, ◌==◌, length, arith, if◌then◌else◌,
}
use poor_travel_agent.Base.Text.{codes}

-- `negsuc n` is -(n + 1).
pub data ℤ : Type 0 where
  pos : ℕ → ℤ
  negsuc : ℕ → ℤ

-- a `float`, by its `repr` and `math.isfinite`
pub record Float : Type 0 where
  pub repr : String
  pub finite : Bool

-- `other` is any object that is no JSON value. The items of a dict stand in its order, a key once;
-- `none` is a key that is not a `str`.
mutual
  pub data Value : Type 0 where
    null : Value
    bool : Bool → Value
    int : ℤ → Value
    float : Float → Value
    str : String → Value
    list : Items → Value
    dict : Fields → Value
    other : Value

  pub data Items : Type 0 where
    nil : Items
    cons : Value → Items → Items

  pub data Fields : Type 0 where
    end : Fields
    field : Option String → Value → Fields → Fields

-- payload.get(key)
unfoldable pub get : String → Fields → Option Value
get k end = none
get k (field none v rest) = get k rest
get k (field (some j) v rest) = if j == k then some v else get k rest

unfoldable mutual
  pub strict_json_value : Value → Bool
  strict_json_value null = true
  strict_json_value (bool b) = true
  strict_json_value (int n) = true
  strict_json_value (float x) = x.finite
  strict_json_value (str s) = true
  strict_json_value (list xs) = strict_items xs
  strict_json_value (dict fs) = strict_fields fs
  strict_json_value other = false

  pub strict_items : Items → Bool
  strict_items nil = true
  strict_items (cons v rest) = strict_json_value v && strict_items rest

  pub strict_fields : Fields → Bool
  strict_fields end = true
  strict_fields (field none v rest) = false
  strict_fields (field (some k) v rest) = strict_json_value v && strict_fields rest

unfoldable mutual
  pub all_numbers_finite : Value → Bool
  all_numbers_finite (float x) = x.finite
  all_numbers_finite (dict fs) = finite_fields fs
  all_numbers_finite (list xs) = finite_items xs
  all_numbers_finite _ = true

  pub finite_items : Items → Bool
  finite_items nil = true
  finite_items (cons v rest) = all_numbers_finite v && finite_items rest

  pub finite_fields : Fields → Bool
  finite_fields end = true
  finite_fields (field k v rest) = all_numbers_finite v && finite_fields rest

-- the digits of a number below 10 ^ fuel
digit_count : ℕ → ℕ → ℕ
digit_count zero n = 1
digit_count (suc fuel) n =
    let rest = suc (digit_count fuel (n / 10)) in if ltb n 10 then 1 else rest

-- `str(n)`; a number has at most as many digits as its value
int_size : ℤ → ℕ
unfolding digit_count
int_size (pos n) = digit_count n n
int_size (negsuc n) = suc (digit_count (suc n) (suc n))

-- \b \t \n \f \r, a quote and a backslash take two bytes, another control character takes six
char_size : ℕ → ℕ
char_size c =
    if eqb c 8 || eqb c 9 || eqb c 10 || eqb c 12 || eqb c 13 || eqb c 34 || eqb c 92
    then 2
    else if ltb c 32
    then 6
    else if ltb c 0x80
    then 1
    else if ltb c 0x800
    then 2
    else if ltb c 0x10000
    then 3
    else 4

chars_size : List ℕ → ℕ
chars_size [] = 0
chars_size (c ∷ cs) = char_size c + chars_size cs

text_size : String → ℕ
unfolding char_size chars_size
text_size s = 2 + chars_size (codes s)

-- The size in bytes of the JSON text. Each item comes with the "," or the bracket behind it.
unfoldable mutual
  unfolding int_size text_size

  pub json_size : Value → ℕ
  json_size null = 4
  json_size (bool true) = 4
  json_size (bool false) = 5
  json_size (int n) = int_size n
  json_size (float x) = length (codes x.repr)
  json_size (str s) = text_size s
  json_size (list nil) = 2
  json_size (list (cons v rest)) = 1 + (json_size v + 1 + items_size rest)
  json_size (dict end) = 2
  json_size (dict (field none v rest)) = 0
  json_size (dict (field (some k) v rest)) =
      1 + (text_size k + 1 + json_size v + 1 + fields_size rest)
  json_size other = 0

  pub items_size : Items → ℕ
  items_size nil = 0
  items_size (cons v rest) = json_size v + 1 + items_size rest

  pub fields_size : Fields → ℕ
  fields_size end = 0
  fields_size (field none v rest) = 0
  fields_size (field (some k) v rest) = text_size k + 1 + json_size v + 1 + fields_size rest

and_true :
    {a b c d : Bool}
    → (a && b) ≡ true
    → (a ≡ true → c ≡ true)
    → (b ≡ true → d ≡ true)
    → (c && d) ≡ true
and_true h f g = ground arith

-- What the strict check lets through has only finite numbers.
mutual
  unfolding strict_json_value all_numbers_finite

  finite_of_strict_value : (v : Value) → strict_json_value v ≡ true → all_numbers_finite v ≡ true
  finite_of_strict_value null h = refl
  finite_of_strict_value (bool b) h = refl
  finite_of_strict_value (int n) h = refl
  finite_of_strict_value (float x) h = h
  finite_of_strict_value (str s) h = refl
  finite_of_strict_value (list xs) h = finite_of_strict_items xs h
  finite_of_strict_value (dict fs) h = finite_of_strict_fields fs h
  finite_of_strict_value other h = refl

  finite_of_strict_items : (xs : Items) → strict_items xs ≡ true → finite_items xs ≡ true
  finite_of_strict_items nil h = refl
  finite_of_strict_items (cons v rest) h =
      and_true h (finite_of_strict_value v) (finite_of_strict_items rest)

  finite_of_strict_fields : (fs : Fields) → strict_fields fs ≡ true → finite_fields fs ≡ true
  finite_of_strict_fields end h = refl
  finite_of_strict_fields (field none v rest) h = cc
  finite_of_strict_fields (field (some k) v rest) h =
      and_true h (finite_of_strict_value v) (finite_of_strict_fields rest)

pub finite_of_strict : (v : Value) → strict_json_value v ≡ true → all_numbers_finite v ≡ true
finite_of_strict v h = finite_of_strict_value v h
