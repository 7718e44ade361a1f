-- ===== src/Preconv/Tests.antt =====
-- Characters and bytes through the decoder.
use groff.Prelude.{ℕ, ◌≤◌, ◌≡◌, refl, inr, none, some, List, [], ◌∷◌, ◌++◌, arith, codes, All}
use groff.Unicode.{
  valid, valid_unicode_code_sequence, refused, leading_zero, scan, component_refusal,
  to_utf8_string,
}
use groff.Unicode.Names.{valid_unicode_code_sequence-print_04x}
use groff.Unicode.Accepted.{valid_unicode_code_sequence-AreComponents, AreComponents, split}
use groff.Preconv.CodingTag.{
  check_coding_tag, check_lines, line_coding, variables_of, find_marker, split_line, find_coding,
  get_variable_value_pair, read_value, read_word, skip_while, skip_to, contains, behind_semicolon,
  same_word, is_comment_line, starts_with, get_bom, find_bom,
}
use groff.Preconv.CodingTag.Ends.{check_coding_tag-Ends, Ends}
use groff.Preconv.CodingTag.Written.{find_coding-written, written}
use groff.Preconv.TagLines.{
  get_tag_lines, read_rounds, read_round, read_line, behind_cr, count_newlines,
}
use groff.Preconv.TagLines.Lossless.{get_tag_lines-append}
use groff.Preconv.Utf8.{
  decode, entities, conversion_utf8, replacement, add, add_all, add_first, add_continuation,
  low_bits, unicode_entity,
}
use groff.Preconv.Utf8.Decode.{encode, conversion_utf8-encode}
use groff.Preconv.Utf8.Range.{decode-IsCodePoint}

abbrev blank : ℕ → ℕ
blank i = 0

valid_unicode_code_sequence-print_04x_example :
    valid_unicode_code_sequence (codes "u1F600") ≡ valid (codes "1F600")
valid_unicode_code_sequence-print_04x_example =
    valid_unicode_code_sequence-print_04x 128512 (inr (ground arith))

-- The leading zero of the first component refuses the second one.
composite : valid_unicode_code_sequence (codes "u0041_10000") ≡ refused leading_zero
unfolding valid_unicode_code_sequence scan component_refusal
composite = refl

-- The leading zero of the second component passes.
padded : valid_unicode_code_sequence (codes "u1234_00041") ≡ valid (codes "1234_00041")
unfolding valid_unicode_code_sequence scan component_refusal
padded = refl

-- Beyond the last code point.
too_large : to_utf8_string 1114112 ≡ 244 ∷ 144 ∷ 128 ∷ 128 ∷ []
unfolding to_utf8_string
too_large = refl

conversion_utf8-encode_example :
    conversion_utf8 blank (encode (65 ∷ 8364 ∷ 128512 ∷ [])) ≡ entities (65 ∷ 8364 ∷ 128512 ∷ [])
conversion_utf8-encode_example =
    conversion_utf8-encode blank (65 ∷ 8364 ∷ 128512 ∷ []) (ground arith)

euro : conversion_utf8 blank (65 ∷ 226 ∷ 130 ∷ 172 ∷ []) ≡ codes "A\\[u20AC]"
unfolding conversion_utf8 decode add_all add add_first add_continuation low_bits unicode_entity
    replacement
euro = refl

-- A surrogate is decoded, and its entity is one that is not accepted.
decoded_surrogate : conversion_utf8 blank (237 ∷ 160 ∷ 128 ∷ []) ≡ codes "\\[uD800]"
unfolding conversion_utf8 decode add_all add add_first add_continuation low_bits unicode_entity
    replacement
decoded_surrogate = refl

decode-IsCodePoint_example : All (λ c. c ≤ 1114111) (decode blank (244 ∷ 144 ∷ 128 ∷ 255 ∷ []))
decode-IsCodePoint_example = decode-IsCodePoint blank (244 ∷ 144 ∷ 128 ∷ 255 ∷ []) (ground arith)

composed : valid_unicode_code_sequence (codes "u0041_0301") ≡ valid (codes "0041_0301")
unfolding valid_unicode_code_sequence scan component_refusal
composed = refl

valid_unicode_code_sequence-AreComponents_example :
    (u : List ℕ) × (codes "u0041_0301" ≡ b'u' ∷ u) × AreComponents 0 0 (split u)
valid_unicode_code_sequence-AreComponents_example =
    valid_unicode_code_sequence-AreComponents (codes "u0041_0301") (codes "0041_0301") composed

abbrev first_lines : List ℕ
first_lines = codes ".TH x" ++ 13 ∷ 10 ∷ codes "ab" ++ 10 ∷ codes "c"

get_tag_lines-append_example :
    (get_tag_lines (codes "'") first_lines).1 ++ (get_tag_lines (codes "'") first_lines).2
    ≡ codes "'" ++ first_lines
get_tag_lines-append_example = get_tag_lines-append (codes "'") first_lines refl

-- A file that ends with a CR gets a further byte.
added_byte : (get_tag_lines [] (codes "ab" ++ 13 ∷ [])).1 ≡ codes "ab" ++ 13 ∷ 255 ∷ []
unfolding get_tag_lines read_rounds read_round read_line behind_cr count_newlines
added_byte = refl

abbrev tag_line : List ℕ
tag_line = codes ".\\\" -*- mode: troff; Coding: utf-8 -*-" ++ 10 ∷ codes "text"

tag_found : check_coding_tag (some tag_line) ≡ some (some (codes "utf-8"))
unfolding check_coding_tag check_lines line_coding variables_of find_marker split_line find_coding
    get_variable_value_pair read_value read_word skip_while skip_to contains behind_semicolon
    same_word is_comment_line starts_with
tag_found = refl

-- A first line that is no comment hides the tag on the second one.
tag_hidden : check_coding_tag (some (codes "text" ++ 10 ∷ tag_line)) ≡ some none
unfolding check_coding_tag check_lines is_comment_line
tag_hidden = refl

check_coding_tag-Ends_example : Ends (check_coding_tag (some tag_line))
check_coding_tag-Ends_example = check_coding_tag-Ends (some tag_line)

find_coding-written_example :
    find_coding 40 (written ((codes "mode", codes "troff") ∷ (codes "CODING", codes "utf-8") ∷ []))
    ≡ some (some (codes "utf-8"))
unfolding contains same_word
find_coding-written_example =
    find_coding-written ((codes "mode", codes "troff") ∷ (codes "CODING", codes "utf-8") ∷ []) 40
      (ground arith) (ground arith)

-- A mark of UTF-16 before two null bytes is taken for one of UTF-32.
marked : (get_bom (255 ∷ 254 ∷ 0 ∷ 0 ∷ 65 ∷ [])).encoding ≡ some (codes "UTF-32")
unfolding get_bom find_bom starts_with
marked = refl
