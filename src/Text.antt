-- ===== src/Text.antt =====
-- Python's text: equality, and the test `not text.strip()`.
use Prim.Native.Char.{code}
use Prim.Native.String.{String}
use prep_watchdeck.Prelude.{ℕ, Bool, true, ◌&&◌, ◌||◌, leb, ◌==◌}
pub use text.Mathlib.Text.{◌==◌ as str_eq}
pub use text.Mathlib.TextEquality.{eq_iff as str_eq_iff}

-- `str.isspace` of one character
abbrev pub is_space : ℕ → Bool
is_space c =
    leb 9 c && leb c 13
    || leb 28 c && leb c 32
    || c == 133
    || c == 160
    || c == 5760
    || leb 8192 c && leb c 8202
    || c == 8232
    || c == 8233
    || c == 8239
    || c == 8287
    || c == 12288

-- `not text.strip()`
abbrev pub is_blank : String → Bool
is_blank String.[] = true
is_blank (String.◌∷◌ c rest) = is_space (code c) && is_blank rest
