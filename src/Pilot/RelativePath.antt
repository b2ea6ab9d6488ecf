-- ===== src/Pilot/RelativePath.antt =====
-- `validate_relative_path` of experiments/pilot_contracts.py, on the code points of the text.
use schema_guard.Base.{
  ℕ, Bool, true, false, not, ◌&&◌, ◌||◌, eqb, all, if◌then◌else◌, List, [], ◌∷◌, ◌++◌, String,
  codes,
}
use schema_guard.Base.Counting.{member}

-- The components between the slashes; the first one is not yet complete.
unfoldable pub components_from : List ℕ → List ℕ → List (List ℕ)
components_from first [] = first ∷ []
components_from first (c ∷ cs) =
    let here = components_from (first ++ (c ∷ [])) cs in
    if eqb c b'/' then first ∷ components_from [] cs else here

-- A component that `PurePosixPath` keeps, except "..".
unfoldable pub is_plain : List ℕ → Bool
is_plain [] = false
is_plain (c ∷ []) = not (eqb c b'.')
is_plain (c ∷ d ∷ []) = not (eqb c b'.' && eqb d b'.')
is_plain (c ∷ d ∷ e ∷ cs) = true

-- A drive with a root, the one absolute form of `PureWindowsPath` that is left when there is no
-- backslash and no slash in front.
unfoldable pub has_drive : List ℕ → Bool
has_drive (c ∷ d ∷ e ∷ cs) = eqb d b':' && eqb e b'/'
has_drive _ = false

abbrev is_dot : List ℕ → Bool
is_dot (c ∷ []) = eqb c b'.'
is_dot _ = false

-- `PurePosixPath(value).as_posix() == value` asks for components that are not empty and not ".",
-- except for the path "." itself; an empty first component is an absolute path.
unfoldable pub is_relative_path : String → Bool
is_relative_path value =
    let cs = codes value in
    not (has_drive cs)
    && not (member eqb b'\\' cs)
    && (is_dot cs || all is_plain (components_from [] cs))
