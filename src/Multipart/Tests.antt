-- ===== src/Multipart/Tests.antt =====
-- Forms on a concrete encoder, and the theorems at inputs that meet their hypotheses.
use Prim.Native.Nat.{◌/◌}
use tlsurl.Base.{
  ℕ, ◌+◌, ◌%◌, ◌^◌, ◌≡◌, true, refl, false, none, some, Text, List, [], ◌∷◌, ◌++◌, codes, length,
  any, nat_beq, if◌then◌else◌, ltb, flat_map,
}
use tlsurl.Body.{streaming, chunk, collect}
use tlsurl.Multipart.{
  borrowed, owned, PercentApi, Form, with_boundary, part_text, stream_with_length, set_file_name,
  add_part, into_stream, compute_length, legal_filename, gen_boundary, prefix, draw, encode_headers,
  percent_encode, value_len, add_all,
}
use tlsurl.Multipart.Length.{compute_length-into_stream}
use tlsurl.Multipart.FileNames.{read_quoted, is_escaped, legal_filename_lem}
use tlsurl.Multipart.Boundary.{IsLegal, gen_boundary_lem}

-- A set is its test; a byte is written in hexadecimal.
abbrev hex : ℕ → ℕ
hex n = if ltb n 10 then b'0' + n else n + 55

abbrev demo : PercentApi
demo = record {
  AsciiSet = List ℕ;
  controls = 13 ∷ 10 ∷ [];
  non_alphanumeric = codes " !\"#$%&'()*+,-./:;<=>?@[\\]^_`{|}~";
  add = λ set c. c ∷ set;
  remove = λ set c. flat_map (λ d. if nat_beq c d then [] else d ∷ []) set;
  utf8_percent_encode = λ value set.
      if any (λ c. any (nat_beq c) set) value
      then owned (
          flat_map
            (λ c. if any (nat_beq c) set then b'%' ∷ hex (c / 16) ∷ hex (c % 16) ∷ [] else c ∷ [])
            value)
      else borrowed value;
}

abbrev form : Form
form =
    add_part (add_part (with_boundary (codes "xyz")) (codes "user") (part_text (codes "ann")))
      (codes "a b")
      (set_file_name (codes "q\"")
        (stream_with_length (streaming none (chunk (codes "12") ∷ chunk (codes "3") ∷ [])) 3))

abbrev sent : Text
sent =
    codes
      "--xyz\r\nContent-Disposition: form-data; name=\"user\"\r\n\r\nann\r\n--xyz\r\nContent-Disposition: form-data; name*=utf-8''a%20b; filename=\"q\\\"\"\r\n\r\n123\r\n--xyz--\r\n"

into_stream-form : collect (into_stream demo form) ≡ some sent
unfolding into_stream encode_headers percent_encode legal_filename add_all
into_stream-form = refl

compute_length-form : (compute_length demo form).1 ≡ some (length sent)
unfolding compute_length encode_headers percent_encode legal_filename value_len add_all
compute_length-form = refl

compute_length-into_stream_example :
    (bytes : Text) × (collect (into_stream demo form) ≡ some bytes)
    × ((compute_length demo form).1 ≡ some (length bytes % 2 ^ 64))
unfolding value_len
compute_length-into_stream_example =
    compute_length-into_stream demo form
      ((codes "ann", refl, refl), ((codes "123", refl, refl), tt))

legal_filename_lem_example :
    (read_quoted false (legal_filename (codes "a\"\r\n") ++ b'"' ∷ codes "; x")
      ≡ some (codes "a\"\r\n", codes "; x"))
    × (is_escaped false (legal_filename (codes "a\"\r\n")) ≡ true)
legal_filename_lem_example = legal_filename_lem (codes "a\"\r\n") (codes "; x")

gen_boundary_lem_example :
    (drawn : Text) × (gen_boundary 123456789 5 ≡ some (prefix ++ drawn))
    × (length drawn ≡ 16)
    × IsLegal drawn
gen_boundary_lem_example = gen_boundary_lem 123456789 5

gen_boundary-zeros : gen_boundary 0 1 ≡ some (codes "----WebKitFormBoundaryAAAAAAAABAAAAAAA")
unfolding gen_boundary draw
gen_boundary-zeros = refl
