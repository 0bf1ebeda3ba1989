-- ===== src/RecordFormat/Text/Examples.antt =====
-- The text forms of record formats at concrete inputs.
use vrs.Base.{◌≡◌, refl, arith, some, [], ◌∷◌}
use vrs.Record.{data_type}
use vrs.RecordFormat.Text.{escape_string, unescape_string, unescape_string-escape_string}
use vrs.RecordFormat.Text.TagName.{
  get_record_format_tag_name, parse_record_format_tag_name,
  parse_record_format_tag_name-get_record_format_tag_name,
}

-- A space, a plus sign, a byte over 127 and a zero byte.
escaped :
    escape_string (b'a' ∷ b' ' ∷ b'+' ∷ 233 ∷ 0 ∷ [])
    ≡ b'a' ∷ b'%' ∷ b'2' ∷ b'0' ∷ b'%' ∷ b'2' ∷ b'B' ∷ b'%' ∷ b'E' ∷ b'9' ∷ b'%' ∷ b'0' ∷ b'0' ∷ []
unfolding escape_string
escaped = refl

unescape_string-escape_string_example :
    unescape_string (escape_string (b'a' ∷ b' ' ∷ 233 ∷ [])) 200 ≡ b'a' ∷ b' ' ∷ 233 ∷ []
unfolding escape_string
unescape_string-escape_string_example =
    unescape_string-escape_string (b'a' ∷ b' ' ∷ 233 ∷ []) 200 (omega arith) (omega arith)

parse_record_format_tag_name-get_record_format_tag_name_example :
    parse_record_format_tag_name (get_record_format_tag_name data_type 12) ≡ some (data_type, 12)
parse_record_format_tag_name-get_record_format_tag_name_example =
    parse_record_format_tag_name-get_record_format_tag_name data_type 12 (omega arith)
