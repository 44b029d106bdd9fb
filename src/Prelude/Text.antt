-- ===== src/Prelude/Text.antt =====
-- Text: decimal numbers, `str.split`, `str.join` and `str.startswith` over the native strings.
use Prim.Native.Nat.{ℕ, zero, suc, ◌/◌, ◌%◌}
use Prim.Native.Char.{code}
use Prim.Native.String.{String, ◌++◌ as ◌<>◌}
use mathlib.Core.Path.{◌≡◌, refl}
use mathlib.Core.Bool.{Bool, true, false, ◌&&◌, ◌||◌}
use mathlib.Core.List.{List, [], ◌∷◌}
use disks.Prelude.Tests.{eqb, ltb, leb, if◌then◌else◌}

digit : ℕ → String
digit d =
    if eqb d 0
    then "0"
    else if eqb d 1
    then "1"
    else if eqb d 2
    then "2"
    else if eqb d 3
    then "3"
    else if eqb d 4
    then "4"
    else if eqb d 5
    then "5"
    else if eqb d 6
    then "6"
    else if eqb d 7
    then "7"
    else if eqb d 8
    then "8"
    else "9"

-- A number has fewer digits than `suc` of itself, so that fuel is enough.
digits_of : ℕ → ℕ → String
digits_of zero n = ""
digits_of (suc fuel) n =
    let rest = digits_of fuel (n / 10) <> digit (n % 10) in if ltb n 10 then digit n else rest

-- `'{0}'.format( n )` of a number
unfoldable pub show : ℕ → String
unfolding digits_of digit
show n = digits_of (suc n) n

show_runs : show 1205 ≡ "1205"
unfolding show
show_runs = refl

split_from : ℕ → String → String → List String
split_from sep word String.[] = word ∷ []
split_from sep word (String.◌∷◌ c s) =
    let here = split_from sep (word <> String.◌∷◌ c "") s in
    let cut = word ∷ split_from sep "" s in if eqb (code c) sep then cut else here

-- `s.split( sep )` for one character `sep`
unfoldable pub split_on : ℕ → String → List String
unfolding split_from
split_on sep s = split_from sep "" s

split_on_runs : split_on b',' "a,bc," ≡ "a" ∷ "bc" ∷ "" ∷ []
unfolding split_on
split_on_runs = refl

is_space : ℕ → Bool
is_space c = eqb c 32 || leb 9 c && leb c 13 || leb 28 c && leb c 31

-- `s.lstrip()` and `s.rstrip()` by a test of the characters that go
lstrip_by : (ℕ → Bool) → String → String
lstrip_by p String.[] = ""
lstrip_by p (String.◌∷◌ c s) =
    let rest = lstrip_by p s in if p (code c) then rest else String.◌∷◌ c s

is_empty : String → Bool
is_empty String.[] = true
is_empty (String.◌∷◌ c s) = false

rstrip_by : (ℕ → Bool) → String → String
rstrip_by p String.[] = ""
rstrip_by p (String.◌∷◌ c s) =
    let rest = rstrip_by p s in if is_empty rest && p (code c) then "" else String.◌∷◌ c rest

-- `s.strip()`, with the white space of ASCII
unfoldable pub strip : String → String
unfolding lstrip_by rstrip_by is_space is_empty
strip s = rstrip_by is_space (lstrip_by is_space s)

-- `s.rstrip( c )`
unfoldable pub rstrip : ℕ → String → String
unfolding rstrip_by is_empty
rstrip c s = rstrip_by (eqb c) s

strip_runs : rstrip b'/' (strip " /target/proc/ ") ≡ "/target/proc"
unfolding strip rstrip
strip_runs = refl

-- `len( s )`
unfoldable pub len : String → ℕ
len String.[] = 0
len (String.◌∷◌ c s) = suc (len s)

-- `s[0] == c`, and `s[-1] == c`; of an empty string neither
unfoldable pub begins : ℕ → String → Bool
begins c String.[] = false
begins c (String.◌∷◌ d s) = eqb (code d) c

unfoldable pub ends : ℕ → String → Bool
unfolding is_empty
ends c String.[] = false
ends c (String.◌∷◌ d s) = let rest = ends c s in if is_empty s then eqb (code d) c else rest

-- `os.path.join( path, name )`
unfoldable pub path_join : String → String → String
unfolding begins ends is_empty
path_join path name =
    if begins b'/' name
    then name
    else if is_empty path || ends b'/' path
    then path <> name
    else path <> ("/" <> name)

-- `sep.join( words )`
unfoldable pub join : String → List String → String
join sep [] = ""
join sep (w ∷ []) = w
join sep (w ∷ v ∷ ws) = w <> (sep <> join sep (v ∷ ws))
