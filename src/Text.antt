-- ===== src/Text.antt =====
-- The parts of Go's `strings` package, of `copy` and of regular expressions that the source uses,
-- on bytes. The proofs are in the modules below.
pub mod Utf8
pub mod Split
pub mod Trim
pub mod Escape
pub mod Space
use opentelemetry_go.Prelude.{
  ℕ, Bool, true, false, ◌&&◌, ◌||◌, not, List, [], ◌∷◌, ◌++◌, Option, none, some, leb, ◌==◌,
  if◌then◌else◌, Bytes, length, take, drop,
}

-- `strings.Split` at a one-byte separator: never the empty list.
push_byte : ℕ → List Bytes → List Bytes
push_byte c [] = (c ∷ []) ∷ []
push_byte c (w ∷ ws) = (c ∷ w) ∷ ws

unfoldable pub split : ℕ → Bytes → List Bytes
unfolding push_byte
split sep [] = [] ∷ []
split sep (c ∷ cs) = let rest = split sep cs in if c == sep then [] ∷ rest else push_byte c rest

-- `strings.Join` with a one-byte separator.
unfoldable pub join : ℕ → List Bytes → Bytes
join sep [] = []
join sep (w ∷ []) = w
join sep (w ∷ v ∷ ws) = w ++ (sep ∷ join sep (v ∷ ws))

push_before : ℕ → Option (Bytes × Bytes) → Option (Bytes × Bytes)
push_before c none = none
push_before c (some (a, b)) = some (c ∷ a, b)

-- `strings.SplitN(s, sep, 2)`: the parts before and behind the first separator, `none` if there
-- is no separator.
unfoldable pub cut : ℕ → Bytes → Option (Bytes × Bytes)
unfolding push_before
cut sep [] = none
cut sep (c ∷ cs) = let rest = cut sep cs in if c == sep then some ([], cs) else push_before c rest

-- `\s` of a regular expression: tab, newline, form feed, carriage return, space.
abbrev pub is_space : ℕ → Bool
is_space c = c == 0x09 || c == 0x0a || c == 0x0c || c == 0x0d || c == 0x20

-- What is left behind a leading `\s*`.
unfoldable pub trim_left : Bytes → Bytes
trim_left [] = []
trim_left (c ∷ cs) = if is_space c then trim_left cs else c ∷ cs

-- What is left before a trailing `\s*`.
push_right : ℕ → Bytes → Bytes
push_right c [] = if is_space c then [] else c ∷ []
push_right c (d ∷ ds) = c ∷ d ∷ ds

unfoldable pub trim_right : Bytes → Bytes
unfolding push_right
trim_right [] = []
trim_right (c ∷ cs) = push_right c (trim_right cs)

-- `copy(dst, src)`: the new contents of `dst`.
unfoldable pub copy {ℓ} : {A : Type ℓ} → List A → List A → List A
copy dst src = take (length dst) src ++ drop (length src) dst
