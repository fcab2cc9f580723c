-- ===== src/Cli/Options.antt =====
-- What the command line code takes from Boost.ProgramOptions, and its `std::invalid_argument`.
pub mod Returns
use url_shortener.Prelude.{ℕ, Bool, Option, List, [], ◌∷◌, is_some, value_or, Bytes}

-- A value, or the message of the exception; its class is left out.
pub data Parsed (A : Type 0) : Type 0 where
  parsed : A → Parsed A
  rejected : Bytes → Parsed A

infixl 5 ◌>>=◌
abbrev pub ◌>>=◌ : {A B : Type 0} → Parsed A → (A → Parsed B) → Parsed B
parsed a >>= f = f a
rejected e >>= f = rejected e

-- An option of a description: with one value, with a number of 32 bits, with a list of values,
-- or a switch.
pub data Kind : Type 0 where
  single number composing switch : Kind

abbrev pub Description : Type 0
Description = List (Bytes × Kind)

-- `po::variables_map` after `notify`: `count` of a single value is whether it is there.
pub record Variables : Type 0 where
  pub value : Bytes → Option Bytes
  pub number_of : Bytes → Option ℕ
  pub values : Bytes → List Bytes
  pub is_on : Bytes → Bool

-- `po::store`, `po::command_line_parser` and `po::notify`; a `po::error` is its text.
abbrev pub OptionsParser : Type 0
OptionsParser = Description → List Bytes → Parsed Variables

abbrev pub single_values : List Bytes → Description
single_values [] = []
single_values (n ∷ ns) = (n, single) ∷ single_values ns

abbrev pub is_given : Variables → Bytes → Bool
is_given vm name = is_some (vm.value name)

-- The value of an option, empty where it is not given.
abbrev pub text_of : Variables → Bytes → Bytes
text_of vm name = value_or (vm.value name) []
