-- ===== src/Wasm/Args.antt =====
-- src/wasm/parser.rs: the check of an argument's value against a type of the contract spec. A text is
-- the list of its characters.
pub mod Range
use Prim.Native.Char.{Char, code, len_utf8}
use Prim.Native.String.{String}
use soroban_cost_estimator.Prelude.{
  ℕ, zero, suc, ◌+◌, ◌-◌, ◌/◌, ◌%◌, ◌^◌, Bool, true, false, ◌&&◌, ◌||◌, leb, ◌==◌, if◌then◌else◌,
  Option, none, some, List, [], ◌∷◌, length,
}
use soroban_cost_estimator.Text.{chars, of_chars, ◌<>◌, is_digit, all_digits, value_from}
use soroban_cost_estimator.Text.Search.{split_once, strip_prefix, eq_chars}
use soroban_cost_estimator.Error.{Externals, type_validation, ok, err, AppResult}

-- `stellar_xdr::ScSpecTypeDef`, as the code matches on it: of the contents of a type only the length of
-- `bytes_n` is read.
pub data ScSpecTypeDef : Type 0 where
  val bool void error u32 i32 u64 i64 timepoint duration u128 i128 u256 i256 : ScSpecTypeDef
  bytes string symbol address muxed_address option result vec map tuple udt : ScSpecTypeDef
  bytes_n : ℕ → ScSpecTypeDef

unfoldable pub spec_type_name : ScSpecTypeDef → String
spec_type_name val = "val"
spec_type_name bool = "bool"
spec_type_name void = "void"
spec_type_name error = "error"
spec_type_name u32 = "u32"
spec_type_name i32 = "i32"
spec_type_name u64 = "u64"
spec_type_name i64 = "i64"
spec_type_name timepoint = "timepoint"
spec_type_name duration = "duration"
spec_type_name u128 = "u128"
spec_type_name i128 = "i128"
spec_type_name u256 = "u256"
spec_type_name i256 = "i256"
spec_type_name bytes = "bytes"
spec_type_name string = "string"
spec_type_name symbol = "symbol"
spec_type_name address = "address"
spec_type_name muxed_address = "muxed_address"
spec_type_name option = "option"
spec_type_name result = "result"
spec_type_name vec = "vec"
spec_type_name map = "map"
spec_type_name tuple = "tuple"
spec_type_name (bytes_n n) = "bytes_n"
spec_type_name udt = "udt"

-- Digits, at least one, of a number up to the bound.
abbrev pub digits_within : ℕ → List Char → Bool
digits_within bound [] = false
digits_within bound (c ∷ s) = all_digits (c ∷ s) && leb (value_from 0 (c ∷ s)) bound

-- `parse` of an unsigned type up to `high`
unfoldable pub is_unsigned : ℕ → List Char → Bool
is_unsigned high [] = false
is_unsigned high (c ∷ s) =
    if code c == b'+' then digits_within high s else digits_within high (c ∷ s)

-- `parse` of a signed type from minus `low` up to `high`
unfoldable pub is_signed : (low high : ℕ) → List Char → Bool
is_signed low high [] = false
is_signed low high (c ∷ s) =
    if code c == b'-'
    then digits_within low s
    else if code c == b'+'
    then digits_within high s
    else digits_within high (c ∷ s)

abbrev pub is_lower_hex : Char → Bool
is_lower_hex c = leb b'a' (code c) && leb (code c) b'f'

abbrev pub is_upper_hex : Char → Bool
is_upper_hex c = leb b'A' (code c) && leb (code c) b'F'

-- `is_ascii_hexdigit`
abbrev pub is_hex_digit : Char → Bool
is_hex_digit c = is_digit c || is_lower_hex c || is_upper_hex c

abbrev pub all : (Char → Bool) → List Char → Bool
all p [] = true
all p (c ∷ s) = p c && all p s

abbrev pub non_empty : List Char → Bool
non_empty [] = false
non_empty (c ∷ s) = true

abbrev pub or_prefix : Option (List Char) → Option (List Char) → Option (List Char)
or_prefix (some s) t = some s
or_prefix none t = t

-- What is behind `0x` or `0X`.
unfoldable pub hex_prefix : List Char → Option (List Char)
unfolding strip_prefix chars
hex_prefix s = or_prefix (strip_prefix (chars "0x") s) (strip_prefix (chars "0X") s)

abbrev pub or_text : List Char → Option (List Char) → List Char
or_text s none = s
or_text s (some t) = t

unfoldable pub strip_hex : List Char → List Char
unfolding hex_prefix
strip_hex s = or_text s (hex_prefix s)

abbrev pub is_wide : List Char → Option (List Char) → Bool
is_wide digits (some hex) = non_empty hex && all is_hex_digit hex
is_wide digits none = non_empty digits && all is_digit digits

unfoldable pub is_wide_integer : List Char → Bool
unfolding hex_prefix strip_prefix is_digit chars
is_wide_integer value =
    let digits = or_text value (strip_prefix (chars "-") value) in
    is_wide digits (hex_prefix digits)

-- `len`, in bytes
abbrev pub byte_len : List Char → ℕ
byte_len [] = 0
byte_len (c ∷ s) = len_utf8 c + byte_len s

abbrev pub is_letter : Char → Bool
is_letter c = (leb b'a' (code c) && leb (code c) b'z') || (leb b'A' (code c) && leb (code c) b'Z')

unfoldable pub is_valid_symbol : List Char → Bool
unfolding is_digit
is_valid_symbol value =
    non_empty value
    && (leb (byte_len value) 32 && all (λ c. is_letter c || is_digit c || code c == b'_') value)

unfoldable pub is_valid_hex : List Char → Bool
unfolding strip_hex is_digit
is_valid_hex value =
    let stripped = strip_hex value in
    non_empty stripped && (byte_len stripped % 2 == 0 && all is_hex_digit stripped)

abbrev pub starts_c_or_g : List Char → Bool
starts_c_or_g [] = false
starts_c_or_g (c ∷ s) = code c == b'C' || code c == b'G'

unfoldable pub is_valid_address : List Char → Bool
unfolding is_digit
is_valid_address value =
    (starts_c_or_g value && byte_len value == 56)
    || (byte_len value == 64 && all is_hex_digit value)

-- The value behind the first `=`, or all of the argument.
abbrev pub behind_key : List Char → Option (List Char × List Char) → List Char
behind_key arg none = arg
behind_key arg (some (key, value)) = value

unfoldable pub arg_value : List Char → List Char
unfolding split_once chars
arg_value arg = behind_key arg (split_once (chars "=") arg)

-- The `match` on the type.
unfoldable pub accepts : ScSpecTypeDef → List Char → Bool
unfolding eq_chars chars is_unsigned is_signed is_wide_integer is_valid_symbol is_valid_hex
    is_valid_address strip_hex
accepts bool value = eq_chars value (chars "true") || eq_chars value (chars "false")
accepts u32 value = is_unsigned (2 ^ 32 - 1) value
accepts i32 value = is_signed (2 ^ 31) (2 ^ 31 - 1) value
accepts u64 value = is_unsigned (2 ^ 64 - 1) value
accepts timepoint value = is_unsigned (2 ^ 64 - 1) value
accepts duration value = is_unsigned (2 ^ 64 - 1) value
accepts i64 value = is_signed (2 ^ 63) (2 ^ 63 - 1) value
accepts u128 value = is_unsigned (2 ^ 128 - 1) value
accepts i128 value = is_signed (2 ^ 127) (2 ^ 127 - 1) value
accepts u256 value = is_wide_integer value
accepts i256 value = is_wide_integer value
accepts symbol value = is_valid_symbol value
accepts bytes value = is_valid_hex value
accepts (bytes_n n) value = is_valid_hex value && byte_len (strip_hex value) / 2 == n
accepts address value = is_valid_address value
accepts _ value = true

unfoldable pub validate_arg_value : {x : Externals} → ScSpecTypeDef → List Char → AppResult x Unit
unfolding accepts arg_value spec_type_name
validate_arg_value type_def arg =
    if accepts type_def (arg_value arg)
    then ok tt
    else err (
        type_validation
          ("arg '" <> of_chars arg <> "' cannot be used as '" <> spec_type_name type_def <> "'"))
