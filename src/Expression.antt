-- ===== src/Expression.antt =====
-- The values of pkg/buildfab/expression.go: what an expression evaluates to, the conversions between
-- the kinds of value, and what the evaluation takes from outside the program. The interface{} of a
-- result only ever holds a bool, a string, a float64 or an int, and no result is nil.
pub mod Compare
pub mod Functions
pub mod Context
pub mod Parse
pub mod Shorter
pub mod Local
pub mod Halted
pub mod Fuel
pub mod Quiet
pub mod Typed
pub mod Ordering
pub mod Tight
pub mod Operators
pub mod Precedence
pub mod Chains
pub mod Literals
pub mod Lookups
use buildfab.Base.{
  Str, Bool, true, false, not, List, [], ◌∷◌, Option, none, some, codes, str_eq, if◌then◌else◌,
  Fallible,
}
use buildfab.Base.Integers.{ℤ, pos, is_zero, itoa_int}

-- version.GetPlatformInfo, with the number of CPUs printed.
pub record PlatformInfo : Type 0 where
  pub platform : Str
  pub arch : Str
  pub os : Str
  pub os_version : Str
  pub num_cpu : Str

-- The floats of Go with strconv.ParseFloat and strconv.FormatFloat, the packages os and regexp, and
-- the version library. `stat` tells whether os.Stat gives an error that is os.IsNotExist, `compile`
-- gives the test of regexp.MatchString.
pub record Host : Type 1 where
  pub Float : Type 0
  pub parse_float : Str → Option Float
  pub format_float : Float → Str
  pub float_of_int : ℤ → Float
  pub float_eq : Float → Float → Bool
  pub float_lt : Float → Float → Bool
  pub float_le : Float → Float → Bool
  pub getenv : Str → Str
  pub is_missing : Str → Bool
  pub compile : Str → Fallible (Str → Bool)
  pub Version : Type 0
  pub parse_version : Str → Fallible Version
  pub compare_versions : Version → Version → ℤ
  pub platform_info : PlatformInfo

-- The dynamic type and the content of `ExpressionResult.Value`.
pub data Value (F : Type 0) : Type 0 where
  bool_value : Bool → Value F
  string_value : Str → Value F
  float_value : F → Value F
  int_value : ℤ → Value F

-- `ExpressionResult.Type`
pub data Kind : Type 0 where
  bool_kind : Kind
  string_kind : Kind
  number_kind : Kind

unfoldable pub is_bool : Kind → Bool
is_bool bool_kind = true
is_bool _ = false

unfoldable pub is_string : Kind → Bool
is_string string_kind = true
is_string _ = false

unfoldable pub is_number : Kind → Bool
is_number number_kind = true
is_number _ = false

pub record ExpressionResult (F : Type 0) : Type 0 where
  pub value : Value F
  pub kind : Kind

unfoldable pub of_bool : {F : Type 0} → Bool → ExpressionResult F
of_bool b = record { value = bool_value b; kind = bool_kind }

unfoldable pub of_string : {F : Type 0} → Str → ExpressionResult F
of_string s = record { value = string_value s; kind = string_kind }

unfoldable pub format_bool : Bool → Str
format_bool true = codes "true"
format_bool false = codes "false"

module _ (h : Host) where
  unfoldable pub bool_of : Value h.Float → Bool
  bool_of (bool_value b) = b
  bool_of (string_value s) = if str_eq s (codes "false") then false else not (str_eq s [])
  bool_of (float_value x) = not (h.float_eq x (h.float_of_int (pos 0)))
  bool_of (int_value n) = not (is_zero n)

  unfoldable pub to_bool : ExpressionResult h.Float → Bool
  unfolding bool_of
  to_bool r = bool_of r.value

  unfoldable pub string_of : Value h.Float → Str
  unfolding format_bool
  string_of (bool_value b) = format_bool b
  string_of (string_value s) = s
  string_of (float_value x) = h.format_float x
  string_of (int_value n) = itoa_int n

  unfoldable pub to_string : ExpressionResult h.Float → Str
  unfolding string_of
  to_string r = string_of r.value

  unfoldable pub parsed_number : Option h.Float → h.Float
  parsed_number (some x) = x
  parsed_number none = h.float_of_int (pos 0)

  unfoldable pub number_of : Value h.Float → h.Float
  unfolding parsed_number
  number_of (bool_value true) = h.float_of_int (pos 1)
  number_of (bool_value false) = h.float_of_int (pos 0)
  number_of (string_value s) = parsed_number (h.parse_float s)
  number_of (float_value x) = x
  number_of (int_value n) = h.float_of_int n

  unfoldable pub to_number : ExpressionResult h.Float → h.Float
  unfolding number_of
  to_number r = number_of r.value
