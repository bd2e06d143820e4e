-- ===== src/Tests/Layouts.antt =====
-- The theorems on the formatter at concrete sources.
use maka.Base.{Bytes, codes, ◌≡◌, refl}
use maka.Fmt.Checked.{formatted, format_checked, lex_kinds}
use maka.Fmt.Guard.{format_checked-kinds}
use maka.Fmt.Ink.{format-ink}
use maka.Fmt.Layout.{format}
use maka.Fmt.White.{ink}

abbrev unformatted : Bytes
unformatted = codes "\n\nunit f() {\n  x = 1;  \n\n\n}}"

abbrev layout : Bytes
layout = codes "unit f() {\n    x = 1;\n\n}}\n"

formats : format_checked unformatted ≡ formatted layout
unfolding format_checked
formats = refl

format_checked-kinds_example :
    (layout ≡ format unformatted) × (lex_kinds layout ≡ lex_kinds unformatted)
format_checked-kinds_example = format_checked-kinds unformatted layout formats

format-ink_example : ink (format unformatted) ≡ ink unformatted
format-ink_example = format-ink unformatted
