-- ===== src/Gateway/Value.antt =====
-- The objects of JavaScript that the gateway receives from WhatsApp: values and their fields, in the
-- order of the keys. Numbers are those of unsigned fields. A `Long` of the protobuf library is what
-- its `toNumber` gives, with `none` where that throws. Its own keys and those of an array are not
-- listed.
use whatsapp_bots_saa_s.Base.{
  ℕ, Bool, true, false, not, Option, none, some, List, [], ◌∷◌, ◌==◌, if◌then◌else◌, all, is_empty,
}
use whatsapp_bots_saa_s.Text.{Text, codes, text_eq, trim, is_digit}
use whatsapp_bots_saa_s.Text.Decimal.{read, show}

mutual
  pub data Value : Type 0 where
    undefined null : Value
    bool : Bool → Value
    num : ℕ → Value
    str : Text → Value
    long : Option ℕ → Value
    obj : Fields → Value
    arr : Items → Value

  pub data Items : Type 0 where
    no_items : Items
    item : Value → Items → Items

  pub data Fields : Type 0 where
    nil : Fields
    entry : Text → Value → Fields → Fields

unfoldable pub member : Text → Fields → Value
unfolding text_eq
member key nil = undefined
member key (entry k v fs) = let rest = member key fs in if text_eq k key then v else rest

-- `v?.key`.
unfoldable pub get : Text → Value → Value
unfolding member
get key (obj fs) = member key fs
get key undefined = undefined
get key null = undefined
get key (bool b) = undefined
get key (num n) = undefined
get key (str s) = undefined
get key (long n) = undefined
get key (arr vs) = undefined

-- `Object.keys(v).find(p)`.
unfoldable pub find_field : (Text → Bool) → Fields → Option Text
find_field p nil = none
find_field p (entry k v fs) = let rest = find_field p fs in if p k then some k else rest

unfoldable pub find_key : (Text → Bool) → Value → Option Text
unfolding find_field
find_key p (obj fs) = find_field p fs
find_key p undefined = none
find_key p null = none
find_key p (bool b) = none
find_key p (num n) = none
find_key p (str s) = none
find_key p (long n) = none
find_key p (arr vs) = none

-- `v && typeof v === 'object'`.
unfoldable pub is_object : Value → Bool
is_object (obj fs) = true
is_object (long n) = true
is_object (arr vs) = true
is_object undefined = false
is_object null = false
is_object (bool b) = false
is_object (num n) = false
is_object (str s) = false

-- `Boolean(v)`.
unfoldable pub is_truthy : Value → Bool
is_truthy (obj fs) = true
is_truthy (long n) = true
is_truthy (arr vs) = true
is_truthy undefined = false
is_truthy null = false
is_truthy (bool b) = b
is_truthy (num n) = not (n == 0)
is_truthy (str s) = not (is_empty s)

-- `v || ''` of a field whose type is string.
unfoldable pub string_or_empty : Value → Text
string_or_empty (str s) = s
string_or_empty (obj fs) = []
string_or_empty (long n) = []
string_or_empty (arr vs) = []
string_or_empty undefined = []
string_or_empty null = []
string_or_empty (bool b) = []
string_or_empty (num n) = []

-- `Number(s)`, with `none` for NaN: of white space it is 0. (Signs, fractions, exponents and other
-- radices are read as NaN: an unsigned field is printed in decimal digits.)
unfoldable pub number_of_text : Text → Option ℕ
unfolding trim is_digit
number_of_text s = if all is_digit (trim s) then some (read (trim s)) else none

-- `Number(v)`.
unfoldable pub number_of : Value → Option ℕ
unfolding number_of_text
number_of undefined = none
number_of null = some 0
number_of (bool b) = some (if b then 1 else 0)
number_of (num n) = some n
number_of (str s) = number_of_text s
number_of (long n) = n
number_of (obj fs) = none
number_of (arr vs) = none

-- `v ?? w` picks by this test.
unfoldable pub is_nullish : Value → Bool
is_nullish undefined = true
is_nullish null = true
is_nullish (bool b) = false
is_nullish (num n) = false
is_nullish (str s) = false
is_nullish (long n) = false
is_nullish (obj fs) = false
is_nullish (arr vs) = false

unfoldable pub items : Items → List Value
items no_items = []
items (item v vs) = v ∷ items vs

-- `Array.isArray(v) ? v : …`.
unfoldable pub array? : Value → Option (List Value)
unfolding items
array? (arr vs) = some (items vs)
array? undefined = none
array? null = none
array? (bool b) = none
array? (num n) = none
array? (str s) = none
array? (long n) = none
array? (obj fs) = none

-- `typeof v === 'string'`.
unfoldable pub string? : Value → Option Text
string? (str s) = some s
string? undefined = none
string? null = none
string? (bool b) = none
string? (num n) = none
string? (long n) = none
string? (obj fs) = none
string? (arr vs) = none

-- `String(v)` of a parsed JSON value. (The elements of an array are not joined.)
unfoldable pub string_of : Value → Text
unfolding show
string_of (str s) = s
string_of undefined = codes "undefined"
string_of null = codes "null"
string_of (bool true) = codes "true"
string_of (bool false) = codes "false"
string_of (num n) = show n
string_of (long none) = []
string_of (long (some n)) = show n
string_of (obj fs) = codes "[object Object]"
string_of (arr vs) = codes "[object Array]"
