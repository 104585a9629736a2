-- ===== src/Base/Prose.antt =====
-- Prose (log lines, notes, errors, references) as the list of its code units; names and other
-- texts that are only compared are native strings.
use Prim.Native.Nat.{ℕ, zero, suc, ◌+◌, ◌-◌, ◌/◌, ◌%◌}
use Prim.Native.Char.{code}
use Prim.Native.String.{String}
use mathlib.Core.Path.{◌≡◌, refl}
use mathlib.Core.Bool.{Bool, true, false, ◌&&◌}
use native.Mathlib.Omega.{arith}
use mathlib.Core.Option.{Option, none, some}
use mathlib.Core.List.{List, [], ◌∷◌, ◌++◌}
use omarchy_cli.Base.Tests.{leb, ltb, ◌==◌, if◌then◌else◌}
use omarchy_cli.Base.Table.{length}

abbrev pub Text : Type 0
Text = List ℕ

abbrev pub codes : String → Text
codes String.[] = []
codes (String.◌∷◌ c s) = code c ∷ codes s

-- The decimal digits of a number, in front of a text; the fuel bounds the number of digits.
unfoldable pub decimal_from : ℕ → ℕ → Text → Text
decimal_from zero n rest = rest
decimal_from (suc fuel) n rest =
    let more = decimal_from fuel (n / 10) ((b'0' + n % 10) ∷ rest) in
    if ltb n 10 then (b'0' + n) ∷ rest else more

-- `String(n)`: a number has no more digits than its successor counts.
unfoldable pub decimal : ℕ → Text
unfolding decimal_from
decimal n = decimal_from (suc n) n []

-- `s.slice(0, n)`
unfoldable pub slice_front : ℕ → Text → Text
slice_front zero s = []
slice_front (suc n) [] = []
slice_front (suc n) (c ∷ s) = c ∷ slice_front n s

drop : ℕ → Text → Text
drop zero s = s
drop (suc n) [] = []
drop (suc n) (c ∷ s) = drop n s

-- `s.slice(-n)`
unfoldable pub slice_back : ℕ → Text → Text
unfolding drop
slice_back n s = drop (length s - n) s

unfoldable pub text_eq : Text → Text → Bool
text_eq [] [] = true
text_eq [] (d ∷ t) = false
text_eq (c ∷ s) [] = false
text_eq (c ∷ s) (d ∷ t) = (c == d) && text_eq s t

-- `s.startsWith(p)`
unfoldable pub starts_with : Text → Text → Bool
starts_with [] s = true
starts_with (c ∷ p) [] = false
starts_with (c ∷ p) (d ∷ s) = (c == d) && starts_with p s

-- SQLite's LIKE folds the case of ASCII letters.
unfoldable pub fold_case : ℕ → ℕ
fold_case c = if leb b'A' c && leb c b'Z' then c + 32 else c

-- `s LIKE 'p%'`, for a pattern p with no wildcard of its own.
unfoldable pub like_prefix : Text → Text → Bool
unfolding fold_case
like_prefix [] s = true
like_prefix (c ∷ p) [] = false
like_prefix (c ∷ p) (d ∷ s) = (fold_case c == fold_case d) && like_prefix p s

-- `${o ?? ""}`, and `${o ? p + o : ""}`, where an empty text counts as none.
unfoldable pub shown : Option Text → Text
shown none = []
shown (some s) = s

unfoldable pub shown_after : Text → Option Text → Text
shown_after p none = []
shown_after p (some []) = []
shown_after p (some (c ∷ s)) = p ++ c ∷ s

pub text_eq_refl : (s : Text) → text_eq s s ≡ true
unfolding text_eq
text_eq_refl [] = refl
text_eq_refl (c ∷ s) = ground (arith, text_eq_refl s)

pub text_eq-eq : (s t : Text) → text_eq s t ≡ true → s ≡ t
unfolding text_eq
text_eq-eq [] [] h = refl
text_eq-eq [] (d ∷ t) h = cc
text_eq-eq (c ∷ s) [] h = cc
text_eq-eq (c ∷ s) (d ∷ t) h = ground (arith, text_eq-eq s t)
