-- ===== src/Tests/Log.antt =====
-- The log classes on concrete inputs.
use jinyi.Log.AppendFile.{Grown, append, append-Grown}
use jinyi.Log.Convert.{convert, convert_lem}
use jinyi.Log.Stream.{
  FixedBuffer, small_buffer, Put, put_bool, put_int, put_char, put_text, put_all, put,
}
use jinyi.Prelude.Decimal.{IsNumeral}
use jinyi.Prelude.Int.{pos, negsuc}
use jinyi.Prelude.{◌≡◌, refl, true, none, some, List, [], ◌∷◌, Bytes, codes}

convert_runs : (convert (pos 0) ≡ codes "0") × (convert (negsuc 1233) ≡ codes "-1234")
unfolding convert
convert_runs = (refl, refl)

convert_lem_example :
    IsNumeral 0 (convert (pos 0))
    × (numeral : Bytes) × (convert (negsuc 0) ≡ b'-' ∷ numeral)
    × IsNumeral 1 numeral
convert_lem_example = convert_lem 0

abbrev empty_buffer : FixedBuffer
empty_buffer = record { size = small_buffer; text = [] }

abbrev puts : List Put
puts =
    put_text (some (codes "fd="))
    ∷ put_int (negsuc 6)
    ∷ put_bool true
    ∷ put_char b'\n'
    ∷ put_text none
    ∷ []

put_all_runs : (put_all empty_buffer puts).text ≡ codes "fd=-71\n(null)"
unfolding put_all put convert
put_all_runs = refl

append_runs : (append (3 ∷ 1 ∷ []) (codes "hello") (codes "> ")).file ≡ codes "> hello"
unfolding append
append_runs = refl

append-Grown_example :
    Grown (codes "hello") (codes "> ") (append (3 ∷ 0 ∷ []) (codes "hello") (codes "> "))
append-Grown_example = append-Grown (3 ∷ 0 ∷ []) (codes "hello") (codes "> ")
