-- ===== src/Common/Strings.antt =====
-- More of Go's `strings`: the operations that look at a text from its end, and TrimSpace.
use Prim.Native.Nat.{ℕ, zero, suc, ◌-◌}
use mathlib.Core.Bool.{Bool, ◌&&◌}
use mathlib.Core.List.{List, [], ◌∷◌, ◌++◌}
use mathlib.Core.Option.{Option, none, some}
use model_runner.Common.Tests.{leb, if◌then◌else◌}
use model_runner.Common.Lists.{length, drop}
use model_runner.Common.Texts.{Text, text_eq, has_prefix}

-- strings.LastIndex: the last place where `p` occurs in `s`.
unfoldable pub last_index : Text → Text → Option ℕ
unfolding has_prefix
last_index p [] = if has_prefix p [] then some 0 else none
last_index p (c ∷ s) = elim (last_index p s) [
  | some i ↦ some (suc i)
  | none ↦ if has_prefix p (c ∷ s) then some 0 else none
]

-- strings.HasSuffix, with the suffix first.
unfoldable pub has_suffix : Text → Text → Bool
unfolding text_eq
has_suffix p s = leb (length p) (length s) && text_eq (drop (length s - length p) s) p

abbrev pub reverse : Text → Text
reverse [] = []
reverse (c ∷ s) = reverse s ++ c ∷ []

-- The encodings of the code points that unicode.IsSpace accepts.
abbrev pub spaces : List Text
spaces =
    (9 ∷ [])
    ∷ (10 ∷ [])
    ∷ (11 ∷ [])
    ∷ (12 ∷ [])
    ∷ (13 ∷ [])
    ∷ (32 ∷ [])
    ∷ (194 ∷ 133 ∷ [])
    ∷ (194 ∷ 160 ∷ [])
    ∷ (225 ∷ 154 ∷ 128 ∷ [])
    ∷ (226 ∷ 128 ∷ 128 ∷ [])
    ∷ (226 ∷ 128 ∷ 129 ∷ [])
    ∷ (226 ∷ 128 ∷ 130 ∷ [])
    ∷ (226 ∷ 128 ∷ 131 ∷ [])
    ∷ (226 ∷ 128 ∷ 132 ∷ [])
    ∷ (226 ∷ 128 ∷ 133 ∷ [])
    ∷ (226 ∷ 128 ∷ 134 ∷ [])
    ∷ (226 ∷ 128 ∷ 135 ∷ [])
    ∷ (226 ∷ 128 ∷ 136 ∷ [])
    ∷ (226 ∷ 128 ∷ 137 ∷ [])
    ∷ (226 ∷ 128 ∷ 138 ∷ [])
    ∷ (226 ∷ 128 ∷ 168 ∷ [])
    ∷ (226 ∷ 128 ∷ 169 ∷ [])
    ∷ (226 ∷ 128 ∷ 175 ∷ [])
    ∷ (226 ∷ 129 ∷ 159 ∷ [])
    ∷ (227 ∷ 128 ∷ 128 ∷ [])
    ∷ []

-- The length of the first of the texts that is a prefix, or 0.
unfoldable pub prefix_length : List Text → Text → ℕ
prefix_length [] s = 0
prefix_length (p ∷ ps) s = if has_prefix p s then length p else prefix_length ps s

-- Takes prefixes away while there are any; each is one byte at least, so the length is fuel enough.
unfoldable pub trim_left : ℕ → List Text → Text → Text
trim_left zero ps s = s
trim_left (suc fuel) ps s = trim_left fuel ps (drop (prefix_length ps s) s)

reversed : List Text → List Text
reversed [] = []
reversed (p ∷ ps) = reverse p ∷ reversed ps

-- strings.TrimSpace.
unfoldable pub trim_space : Text → Text
unfolding trim_left reversed prefix_length
trim_space s =
    let t = trim_left (length s) spaces s in
    reverse (trim_left (length t) (reversed spaces) (reverse t))
