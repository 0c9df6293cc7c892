-- ===== src/Text.antt =====
-- `str.strip` of Python, over the native texts.
use Prim.Native.Char.{Char, code}
use pottracker.Prelude.{
  String, Bool, true, false, ◌&&◌, ◌||◌, leb, eqb, if◌then◌else◌, [], ◌∷◌, any_of,
}

-- `ch.isspace()`.
is_space : Char → Bool
is_space ch =
    let c = code ch in
    (leb 9 c && leb c 13)
    || (leb 28 c && leb c 32)
    || (leb 8192 c && leb c 8202)
    || any_of (λ s. eqb c s) (133 ∷ 160 ∷ 5760 ∷ 8232 ∷ 8233 ∷ 8239 ∷ 8287 ∷ 12288 ∷ [])

pub lstrip : String → String
lstrip String.[] = String.[]
lstrip (String.◌∷◌ c s) = if is_space c then lstrip s else String.◌∷◌ c s

abbrev is_nil : String → Bool
is_nil String.[] = true
is_nil (String.◌∷◌ c s) = false

rstrip : String → String
rstrip String.[] = String.[]
rstrip (String.◌∷◌ c s) =
    let rest = rstrip s in if is_nil rest && is_space c then String.[] else String.◌∷◌ c rest

pub strip : String → String
unfolding is_space lstrip rstrip
strip s = rstrip (lstrip s)
