-- ===== src/Base/Text.antt =====
-- Python's `str` as a list of code points, with the methods that the program calls.
pub mod Strip
use Prim.Native.Nat.{ℕ, zero, suc, ◌+◌, ◌/◌, ◌%◌}
use Prim.Native.Char.{code}
use Prim.Native.String.{String}
use mathlib.Core.Bool.{Bool, true, false, ◌&&◌, ◌||◌, not}
use mathlib.Core.List.{List, [], ◌∷◌, ◌++◌, reverse}
use nexus_ai.Base.Tests.{ltb, leb, nat_beq, if◌then◌else◌}

abbrev pub Text : Type 0
Text = List ℕ

-- A literal of the source.
abbrev pub codes : String → Text
codes String.[] = []
codes (String.◌∷◌ c s) = code c ∷ codes s

-- `str.isspace`, which `\s` and `strip` use too.
unfoldable pub is_space : ℕ → Bool
is_space c =
    (leb 9 c && leb c 13)
    || (leb 28 c && leb c 32)
    || nat_beq c 133
    || nat_beq c 160
    || nat_beq c 5760
    || (leb 8192 c && leb c 8202)
    || nat_beq c 8232
    || nat_beq c 8233
    || nat_beq c 8239
    || nat_beq c 8287
    || nat_beq c 12288

unfoldable pub lstrip : Text → Text
lstrip [] = []
lstrip (c ∷ s) = let rest = lstrip s in if is_space c then rest else c ∷ s

-- `s.strip()`
unfoldable pub strip : Text → Text
unfolding lstrip
strip s = reverse (lstrip (reverse (lstrip s)))

-- `sep.join(parts)`
unfoldable pub join : Text → List Text → Text
join sep [] = []
join sep (p ∷ []) = p
join sep (p ∷ q ∷ ps) = p ++ (sep ++ join sep (q ∷ ps))

-- `s.startswith(prefix)`
unfoldable pub starts_with : Text → Text → Bool
starts_with [] s = true
starts_with (c ∷ p) [] = false
starts_with (c ∷ p) (d ∷ s) = nat_beq c d && starts_with p s

-- `len(re.findall(r"\S+", s))`: the runs of characters that are no spaces. `inside` says whether
-- the character before belongs to a run.
unfoldable pub runs_from : Bool → Text → ℕ
runs_from inside [] = 0
runs_from inside (c ∷ s) =
    let space = is_space c in (if not space && not inside then 1 else 0) + runs_from (not space) s

unfoldable pub word_count : Text → ℕ
unfolding runs_from
word_count s = runs_from false s

digits : ℕ → ℕ → Text → Text
digits zero n acc = acc
digits (suc fuel) n acc =
    let d = (n % 10 + 48) ∷ acc in let rest = digits fuel (n / 10) d in if ltb n 10 then d else rest

-- `str(n)`: a number has at most `n + 1` decimal digits.
unfoldable pub decimal : ℕ → Text
unfolding digits
decimal n = digits (n + 1) n []

-- `re.findall(r"[a-z0-9]+", s)`: the run at the front, and the later ones.
unfoldable pub is_word_char : ℕ → Bool
is_word_char c = (leb 97 c && leb c 122) || (leb 48 c && leb c 57)

abbrev flush : Text → List Text → List Text
flush [] runs = runs
flush (c ∷ w) runs = (c ∷ w) ∷ runs

split_words : Text → Text × List Text
split_words [] = ([], [])
split_words (c ∷ s) =
    let (front, runs) = split_words s in
    if is_word_char c then (c ∷ front, runs) else ([], flush front runs)

unfoldable pub words : Text → List Text
unfolding split_words is_word_char
words s = let (front, runs) = split_words s in flush front runs
