-- ===== src/Prelude/Text.antt =====
-- Python's `in` and `lower()` on strings, over the code points of a text; `lower` is that of ASCII.
use Prim.Native.Nat.{ℕ, zero, suc, ◌+◌, ◌-◌}
use mathlib.Core.Path.{◌≡◌, refl}
use Prim.Native.Char.{code}
use Prim.Native.String.{String}
use mathlib.Core.Bool.{Bool, true, false, ◌&&◌, ◌||◌}
use mathlib.Core.List.{List, [], ◌∷◌, map}
use nimbus_net.Prelude.Tests.{leb, ◌==◌, if◌then◌else◌}

abbrev pub codes : String → List ℕ
codes String.[] = []
codes (String.◌∷◌ c s) = code c ∷ codes s

unfoldable pub starts_with : List ℕ → List ℕ → Bool
starts_with [] hay = true
starts_with (c ∷ cs) [] = false
starts_with (c ∷ cs) (d ∷ ds) = c == d && starts_with cs ds

unfoldable pub occurs : List ℕ → List ℕ → Bool
unfolding starts_with
occurs needle [] = starts_with needle []
occurs needle (d ∷ ds) = starts_with needle (d ∷ ds) || occurs needle ds

abbrev lower_code : ℕ → ℕ
lower_code c = if leb b'A' c && leb c b'Z' then c + 32 else c

-- needle in hay
unfoldable pub contains : String → String → Bool
unfolding occurs
contains needle hay = occurs (codes needle) (codes hay)

-- needle in hay.lower()
unfoldable pub contains_lower : String → String → Bool
unfolding occurs
contains_lower needle hay = occurs (codes needle) (map lower_code (codes hay))

infixr 65 ◌++ₛ◌
abbrev pub ◌++ₛ◌ : String → String → String
String.[] ++ₛ t = t
(String.◌∷◌ c s) ++ₛ t = String.◌∷◌ c (s ++ₛ t)

abbrev size : String → ℕ
size String.[] = 0
size (String.◌∷◌ c s) = suc (size s)

-- `skip` characters of `old` are still to be passed over.
replace_from : String → String → ℕ → String → String
unfolding starts_with
replace_from old new skip String.[] = String.[]
replace_from old new zero (String.◌∷◌ c s) =
    let here = new ++ₛ replace_from old new (size old - 1) s in
    let later = String.◌∷◌ c (replace_from old new zero s) in
    if starts_with (codes old) (code c ∷ codes s) then here else later
replace_from old new (suc skip) (String.◌∷◌ c s) = replace_from old new skip s

-- s.replace(old, new), for an `old` that is not empty
unfoldable pub replace : String → String → String → String
unfolding replace_from
replace old new s = replace_from old new 0 s

replace_twice : replace "{region}" "us" "a {region}b{region}" ≡ "a usbus"
unfolding replace
replace_twice = refl
