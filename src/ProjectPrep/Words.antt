-- ===== src/ProjectPrep/Words.antt =====
-- An argument that is escaped, and the word that a POSIX shell reads from it.
use spawnea.Prelude.{ℕ, Bool, any, Option, none, some, [], ◌∷◌, ◌==◌, if◌then◌else◌}
use spawnea.Prelude.Units.{Text, units}
use spawnea.ProjectPrep.{quote}

pub data Quoting : Type 0 where
  plain : Quoting
  quoted : Quoting
  escaped : Quoting

abbrev put : ℕ → Option (Text × Text) → Option (Text × Text)
put c none = none
put c (some (word, rest)) = some (c ∷ word, rest)

-- The units that mean something to a shell when they stand outside quotes, but for the space, the
-- single quote and the backslash: expansions, operators, patterns, comments, tab and newline.
abbrev special_units : Text
special_units = 0x09 ∷ 0x0a ∷ units "$`\"&|;<>(){}[]*?!#~=%^"

abbrev is_special : ℕ → Bool
is_special c = any (λ d. c == d) special_units

-- The word up to a space outside quotes, and the text after that space: between single quotes
-- every unit stands for itself, after a backslash outside them the next one does. `none` is a quote
-- or a backslash without its end, a newline behind a backslash, and every unit outside quotes that
-- a shell does not take for itself.
unfoldable pub read_word : Quoting → Text → Option (Text × Text)
read_word plain [] = some ([], [])
read_word plain (c ∷ s) =
    let word = put c (read_word plain s) in
    let inside = read_word quoted s in
    let next = read_word escaped s in
    if c == b' '
    then some ([], s)
    else if c == quote
    then inside
    else if c == 0x5c
    then next
    else if is_special c
    then none
    else word
read_word quoted [] = none
read_word quoted (c ∷ s) =
    let outside = read_word plain s in
    let word = put c (read_word quoted s) in if c == quote then outside else word
read_word escaped [] = none
read_word escaped (c ∷ s) = let word = put c (read_word plain s) in if c == 0x0a then none else word

abbrev put_all : Text → Option (Text × Text) → Option (Text × Text)
put_all [] r = r
put_all (c ∷ s) r = put c (put_all s r)
