-- ===== src/Multipart.antt =====
-- src/client/multipart.rs: the layout of a multipart form, its length, and its boundary. The percent
-- encoding is the `percent-encoding` crate's, an interface.
pub mod Length
pub mod FileNames
pub mod Boundary
mod Tests
use Prim.Native.Nat.{◌/◌}
use tlsurl.Base.{
  ℕ, zero, suc, ◌+◌, ◌%◌, ◌^◌, ◌≡◌, refl, Option, none, some, Text, List, [], ◌∷◌, ◌++◌, codes,
  flat_map, if◌then◌else◌, nat_beq, length, get_elem?, ◌>>=◌, is_some, is_nil,
}
use tlsurl.Body.{Body, Frame, chunk, failed, empty, stream, into_data_stream, content_length}

-- Whether the encoder has changed the text: `Cow`.
pub data Cow : Type 0 where
  borrowed owned : Text → Cow

-- The sets of bytes and the encoder of the `percent-encoding` crate.
pub record PercentApi : Type 1 where
  pub AsciiSet : Type 0
  pub controls : AsciiSet
  pub non_alphanumeric : AsciiSet
  pub add : AsciiSet → ℕ → AsciiSet
  pub remove : AsciiSet → ℕ → AsciiSet
  pub utf8_percent_encode : Text → AsciiSet → Cow

pub data PercentEncoding : Type 0 where
  path_segment attr_char no_op : PercentEncoding

-- `headers` are the pairs in the order of `HeaderMap::iter`.
pub record PartMetadata : Type 0 where
  pub mime : Option Text
  pub file_name : Option Text
  pub headers : List (Text × Text)

pub record Part : Type 0 where
  pub meta : PartMetadata
  pub value : Body
  pub body_length : Option ℕ

pub record Form : Type 0 where
  pub boundary : Text
  pub computed_headers : List Text
  pub fields : List (Text × Part)
  pub percent_encoding : PercentEncoding

abbrev pub with_boundary : Text → Form
with_boundary boundary = record {
  boundary = boundary;
  computed_headers = [];
  fields = [];
  percent_encoding = path_segment;
}

abbrev pub part_new : Body → Option ℕ → Part
part_new value body_length = record {
  meta = record { mime = none; file_name = none; headers = [] };
  value = value;
  body_length = body_length;
}

-- `Part::text`, and `Part::bytes`.
abbrev pub part_text : Text → Part
part_text value = part_new (Body.reusable value) none

abbrev pub stream_with_length : Body → ℕ → Part
stream_with_length value length = part_new value (some length)

abbrev pub set_file_name : Text → Part → Part
set_file_name name part = record part { meta = record (part.meta) { file_name = some name } }

-- `Form::part`, and `Form::text` and `Form::file` on what they build.
abbrev pub add_part : Form → Text → Part → Form
add_part form name part = record form { fields = form.fields ++ (name, part) ∷ [] }

pub value_len : Part → Option ℕ
value_len part = if is_some part.body_length then part.body_length else content_length part.value

-- `str::replace` of one byte.
abbrev pub replace : ℕ → Text → Text → Text
replace b new text = flat_map (λ c. if nat_beq c b then new else c ∷ []) text

-- `legal_filename`.
unfoldable pub legal_filename : Text → Text
legal_filename name =
    replace b'\n' (codes "\\\n") (
      replace b'\r' (codes "\\\r")
        (replace b'"' (codes "\\\"") (replace b'\\' (codes "\\\\") name)))

module _ (api : PercentApi) where
  open api use {AsciiSet, controls, non_alphanumeric, add, remove, utf8_percent_encode}

  add_all : AsciiSet → Text → AsciiSet
  add_all set [] = set
  add_all set (c ∷ s) = add_all (add set c) s

  remove_all : AsciiSet → Text → AsciiSet
  remove_all set [] = set
  remove_all set (c ∷ s) = remove_all (remove set c) s

  abbrev fragment_encode_set : AsciiSet
  fragment_encode_set = add_all controls (codes " \"<>`")

  abbrev path_encode_set : AsciiSet
  path_encode_set = add_all fragment_encode_set (codes "#?{}")

  abbrev path_segment_encode_set : AsciiSet
  path_segment_encode_set = add_all path_encode_set (codes "/%")

  abbrev attr_char_encode_set : AsciiSet
  attr_char_encode_set = remove_all non_alphanumeric (codes "!#$&+-.^_`|~")

  pub percent_encode : PercentEncoding → Text → Cow
  percent_encode path_segment value = utf8_percent_encode value path_segment_encode_set
  percent_encode attr_char value = utf8_percent_encode value attr_char_encode_set
  percent_encode no_op value = borrowed value

  abbrev name_field : Cow → Text
  name_field (borrowed value) = codes "name=\"" ++ (value ++ codes "\"")
  name_field (owned value) = codes "name*=utf-8''" ++ value

  abbrev file_name_field : Option Text → Text
  file_name_field none = []
  file_name_field (some name) = codes "; filename=\"" ++ (legal_filename name ++ codes "\"")

  abbrev mime_field : Option Text → Text
  mime_field none = []
  mime_field (some mime) = codes "\r\nContent-Type: " ++ mime

  abbrev header_lines : List (Text × Text) → Text
  header_lines headers = flat_map (λ (k, v). codes "\r\n" ++ (k ++ (codes ": " ++ v))) headers

  pub encode_headers : PercentEncoding → Text → PartMetadata → Text
  encode_headers encoding name field =
      codes "Content-Disposition: form-data; "
      ++ (name_field (percent_encode encoding name)
          ++ (file_name_field field.file_name
              ++ (mime_field field.mime ++ header_lines field.headers)))

  abbrev pub part_stream : Form → Text × Part → List Frame
  part_stream form (name, part) =
      chunk (codes "--" ++ (form.boundary ++ codes "\r\n"))
      ∷ chunk (encode_headers form.percent_encoding name part.meta ++ codes "\r\n\r\n")
      ∷ (into_data_stream part.value ++ chunk (codes "\r\n") ∷ [])

  -- The fold of `into_stream` over the fields after the first.
  abbrev pub chain_fields : Form → List Frame → List (Text × Part) → List Frame
  chain_fields form memo [] = memo
  chain_fields form memo (field ∷ fields) =
      chain_fields form (memo ++ part_stream form field) fields

  abbrev pub into_stream_of : Form → List (Text × Part) → List Frame
  into_stream_of form [] = []
  into_stream_of form (first ∷ fields) =
      chain_fields form (part_stream form first) fields
      ++ chunk (codes "--" ++ (form.boundary ++ codes "--\r\n")) ∷ []

  pub into_stream : Form → List Frame
  into_stream form = into_stream_of form form.fields

  -- `Form::stream`
  abbrev pub form_stream : Form → Body
  form_stream form = if is_nil form.fields then empty else stream (into_stream form)

  -- The loop of `compute_length`: the headers that are cached, and the length if all are known. The
  -- length is a `u64`.
  pub field_lengths : Form → List (Text × Part) → List Text → ℕ → List Text × Option ℕ
  field_lengths form [] cached total = (cached, some total)
  field_lengths form ((name, part) ∷ fields) cached total = elim (value_len part) [
    | none ↦ (cached, none)
    | some value_length ↦
        let header = encode_headers form.percent_encoding name part.meta in
        field_lengths form fields (cached ++ header ∷ [])
          ((total + (2 + length form.boundary + 2 + length header + 4 + value_length + 2)) % 2 ^ 64)
  ]

  abbrev pub compute_length_of : Form → List (Text × Part) → Form × Option ℕ
  compute_length_of form fields =
      let (cached, total) = field_lengths form fields form.computed_headers 0 in
      (
        record form { computed_headers = cached },
        total >>= λ n.
            some (if is_nil fields then n else (n + (2 + length form.boundary + 4)) % 2 ^ 64),
      )

  pub compute_length : Form → Form × Option ℕ
  unfolding field_lengths
  compute_length form = compute_length_of form form.fields

-- The 64 bytes that a boundary is drawn from.
abbrev pub alpha_numeric_encoding_map : Text
alpha_numeric_encoding_map =
    codes "ABCDEFGHIJKLMNOPQRSTUVWXYZabcdefghijklmnopqrstuvwxyz0123456789AB"

abbrev pub prefix : Text
prefix = codes "----WebKitFormBoundary"

-- The inner loop of `gen_boundary`, six bits of the random number for each byte; `none` is a read out of bounds.
unfoldable pub draw : ℕ → ℕ → Text → Option Text
draw zero randomness boundary = some boundary
draw (suc rounds) randomness boundary =
    get_elem? alpha_numeric_encoding_map (randomness % 64) >>= λ byte.
    draw rounds (randomness / 64) (boundary ++ byte ∷ [])

-- `gen_boundary` on its two random numbers; `none` is a failed assertion or read.
unfoldable pub gen_boundary : ℕ → ℕ → Option Text
gen_boundary random random' = draw 8 random prefix >>= λ half.
    draw 8 random' half >>= λ boundary. if nat_beq (length boundary) 38 then some boundary else none
