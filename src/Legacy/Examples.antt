-- ===== src/Legacy/Examples.antt =====
-- The scan on small files, and its theorems there.
use samgita.Prelude.{Text, codes, is_space, [], ◌∷◌, ◌++◌, ◌≡◌, ◌≢◌, refl}
use samgita.Legacy.Scan.{is_comment, is_test, split_lines, violations}
use samgita.Legacy.Scan.Found.{Among, first, later, violations-none}

abbrev path : Text
path = codes "config.exs"

abbrev source : Text
source = codes "# Horde\nok\n"

abbrev line : Text
line = codes "ok\n"

-- A comment is not reported, and the second line of another file is.
clean : violations path source ≡ []
unfolding violations is_space
clean = refl

dirty :
    violations path (codes "a\nx = Horde\n")
    ≡ record { path = path; line_no = 2; identifier = codes "Horde" } ∷ []
unfolding violations is_space
dirty = refl

-- A test may refute the identifier.
refuted : violations (codes "a_test.exs") (codes "refute app in [:samgita_memory]\n") ≡ []
unfolding violations is_space
refuted = refl

second : Among line (split_lines source)
unfolding split_lines
second = later first

violations-none_example : line ≢ codes "o" ++ (codes "pgvector" ++ [])
violations-none_example =
    violations-none path source line (codes "pgvector") (codes "o") [] (unfold is_test in refl)
      clean second (unfold is_comment is_space in refl)
      (later (later (later (later (later first)))))
