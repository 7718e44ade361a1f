-- ===== src/Expression/Input.antt =====
-- src/roff/troff/token.h as number.cpp uses it: the current token, the tokens behind it, and the
-- outcome of a reader.
pub use groff.Characters.{csdigit}
use groff.Prelude.{ℕ, suc, Bool, true, false, if◌then◌else◌, ℤ}

-- What number.cpp asks of a token. `other` is every token that has no character.
pub data Token : Type 0 where
  char : ℕ → Token
  space tab newline other : Token

-- `token::ch`: 0 where the token is not a character.
abbrev pub ch : Token → ℕ
ch (char c) = c
ch _ = 0

abbrev pub is_space : Token → Bool
is_space space = true
is_space _ = false

abbrev pub is_tab : Token → Bool
is_tab tab = true
is_tab _ = false

abbrev pub is_newline : Token → Bool
is_newline newline = true
is_newline _ = false

-- What an expression reads of `curenv` and `curdiv`: the type size in basic units, and the field `n`
-- of the vertical spacing, of the position on the input line and of the vertical position.
pub record Env : Type 0 where
  pub size : ℤ
  pub vertical_spacing : ℤ
  pub input_line_position : ℤ
  pub vertical_position : ℤ

-- The current token first. At the end of the input every further token is `eof`.
pub data Input : Type 0 where
  eof : Env → Input
  tok : Token → Env → Input → Input

abbrev pub env : Input → Env
env (eof e) = e
env (tok t e i) = e

abbrev pub current : Input → Token
current (eof e) = other
current (tok t e i) = t

-- `tok.ch()`, `tok.next()`.
abbrev pub cur_ch : Input → ℕ
cur_ch i = ch (current i)

abbrev pub next : Input → Input
next (eof e) = eof e
next (tok t e i) = i

unfoldable pub skip_spaces : Input → Input
skip_spaces (eof e) = eof e
skip_spaces (tok t e i) = let rest = skip_spaces i in if is_space t then rest else tok t e i

abbrev pub size : Input → ℕ
size (eof e) = 0
size (tok t e i) = suc (size i)

-- A reader returns `true` with a value, or `false`; `undefined` is an assertion that fails or undefined
-- behaviour of C++; `starved` is the model's own, for a recursion that is out of fuel.
pub data Outcome {ℓ} (A : Type ℓ) : Type ℓ where
  accepted : A → Input → Outcome A
  rejected : Input → Outcome A
  undefined starved : Outcome A

abbrev pub Reader : Type 0 → Type 0
Reader A = Input → Outcome A

infixl 5 ◌>>=◌
abbrev pub ◌>>=◌ : {A B : Type 0} → Outcome A → (A → Input → Outcome B) → Outcome B
accepted a i >>= f = f a i
rejected i >>= f = rejected i
undefined >>= f = undefined
starved >>= f = starved
