-- ===== src/Multipart/Length.antt =====
-- src/client/multipart.rs: the length that `compute_length` predicts, against the bytes of the stream.
use mathlib.Core.Option
use tlsurl.Base.{
  ℕ, ◌+◌, ◌%◌, ◌^◌, ◌≡◌, refl, ap, ◌∙◌, some, Text, List, [], ◌∷◌, ◌++◌, codes, length,
  length-append, All, arith, ◌>>=◌, append_assoc, append-nil, sym,
}
use tlsurl.Body.{Frame, chunk, failed, into_data_stream, collect}
use tlsurl.Multipart.{
  PercentApi, Part, Form, value_len, encode_headers, part_stream, chain_fields, into_stream,
  field_lengths, compute_length, compute_length_of, into_stream_of,
}

-- The stream of the part does not fail, and the part's length is known and is the length of its bytes.
abbrev pub IsMeasured : Text × Part → Type 0
IsMeasured (name, part) =
    (bytes : Text) × (collect (into_data_stream part.value) ≡ some bytes)
    × (value_len part ≡ some (length bytes))

collect-append :
    (xs ys : List Frame) (a b : Text)
    → collect xs ≡ some a
    → collect ys ≡ some b
    → collect (xs ++ ys) ≡ some (a ++ b)
collect-append [] ys a b h k = rw k (cc h)
collect-append (failed ∷ xs) ys a b h k = cc h
collect-append (chunk t ∷ xs) ys a b h k =
    let (r, rest, e) = (Option.map-eq-some_iff (◌++◌ t) (collect xs)).0 h in
    rw (collect-append xs ys r b rest k, ← e) (ap some (sym (append_assoc t r b)))

length-part_stream :
    (b h y : Text)
    → length
        ((codes "--" ++ (b ++ codes "\r\n")) ++ ((h ++ codes "\r\n\r\n") ++ (y ++ codes "\r\n")))
      ≡ 2 + length b + 2 + length h + 4 + length y + 2
length-part_stream b h y = omega (
  arith,
  length-append (b ++ codes "\r\n") ((h ++ codes "\r\n\r\n") ++ (y ++ codes "\r\n")),
  length-append b (codes "\r\n"),
  length-append (h ++ codes "\r\n\r\n") (y ++ codes "\r\n"),
  length-append h (codes "\r\n\r\n"),
  length-append y (codes "\r\n"),
)

collect_one : (t : Text) → collect (chunk t ∷ []) ≡ some t
collect_one t = ap some (append-nil t)

length-last : (b : Text) → length (codes "--" ++ (b ++ codes "--\r\n")) ≡ 2 + length b + 4
length-last b = omega (arith, length-append b (codes "--\r\n"))

module _ (api : PercentApi) where
  -- The bytes of a part whose value has `n` bytes.
  abbrev part_size : Form → Text → Part → ℕ → ℕ
  part_size form name part n =
      2
      + length form.boundary
      + 2
      + length (encode_headers api form.percent_encoding name part.meta)
      + 4
      + n
      + 2

  collect-part_stream :
      (form : Form) (name : Text) (part : Part) (bytes : Text)
      → collect (into_data_stream part.value) ≡ some bytes
      → (sent : Text) × (collect (part_stream api form (name, part)) ≡ some sent)
        × (length sent ≡ part_size form name part (length bytes))
  collect-part_stream form name part bytes h =
      let start = codes "--" ++ (form.boundary ++ codes "\r\n") in
      let header = encode_headers api form.percent_encoding name part.meta ++ codes "\r\n\r\n" in
      let last =
        collect-append (into_data_stream part.value) (chunk (codes "\r\n") ∷ []) bytes
          (codes "\r\n") h refl in
      (
        start ++ (header ++ (bytes ++ codes "\r\n")),
        rw last refl,
        length-part_stream form.boundary (encode_headers api form.percent_encoding name part.meta)
            bytes,
      )

  wrap : (t k u : ℕ) → t + k ≡ u → (t % 2 ^ 64 + k) % 2 ^ 64 ≡ u % 2 ^ 64
  wrap t k u e = omega arith

  field_lengths-known :
      (form : Form) (name : Text) (part : Part) (n : ℕ) (fields : List (Text × Part))
      (cached : List Text) (total : ℕ)
      → value_len part ≡ some n
      → field_lengths api form ((name, part) ∷ fields) cached total
        ≡ field_lengths api form fields
            (cached ++ encode_headers api form.percent_encoding name part.meta ∷ [])
            ((total + part_size form name part n) % 2 ^ 64)
  unfolding field_lengths
  field_lengths-known form name part n fields cached total known = rw (known, field_lengths) refl

  chain_fields-lengths :
      (form : Form) (fields : List (Text × Part)) (memo : List Frame) (sent : Text)
      (cached : List Text)
      → All IsMeasured fields
      → collect memo ≡ some sent
      → (bytes : Text) × (collect (chain_fields api form memo fields) ≡ some bytes)
        × ((field_lengths api form fields cached (length sent % 2 ^ 64)).1
            ≡ some (length bytes % 2 ^ 64))
  unfolding field_lengths
  chain_fields-lengths form [] memo sent cached m h = (sent, h, refl)
  chain_fields-lengths form ((name, part) ∷ fields) memo sent cached ((bytes, good, known), m) h =
      let (more, streamed, size) = collect-part_stream form name part bytes good in
      let header = encode_headers api form.percent_encoding name part.meta in
      let memo' = memo ++ part_stream api form (name, part) in
      let (all, sent_all, measured) =
        chain_fields-lengths form fields memo' (sent ++ more) (cached ++ header ∷ []) m
          (collect-append memo (part_stream api form (name, part)) sent more h streamed) in
      let total =
        wrap (length sent) (part_size form name part (length bytes)) (length (sent ++ more))
          (omega (arith, length-append sent more, size)) in
      (
        all,
        sent_all,
        ap (λ r. r.1)
              (field_lengths-known form name part (length bytes) fields cached
                (length sent % 2 ^ 64) known)
            ∙ rw total measured,
      )

  compute_length_of-into_stream_of :
      (form : Form) (fields : List (Text × Part))
      → All IsMeasured fields
      → (bytes : Text) × (collect (into_stream_of api form fields) ≡ some bytes)
        × ((compute_length_of api form fields).1 ≡ some (length bytes % 2 ^ 64))
  unfolding field_lengths
  compute_length_of-into_stream_of form [] m = ([], refl, refl)
  compute_length_of-into_stream_of form ((name, part) ∷ fields) ((bytes, good, known), m) =
      let (first, streamed, size) = collect-part_stream form name part bytes good in
      let header = encode_headers api form.percent_encoding name part.meta in
      let last = codes "--" ++ (form.boundary ++ codes "--\r\n") in
      let (all, sent, measured) =
        chain_fields-lengths form fields (part_stream api form (name, part)) first
          (form.computed_headers ++ header ∷ []) m streamed in
      let start : (0 + part_size form name part (length bytes)) % 2 ^ 64 ≡ length first % 2 ^ 64 =
        omega (arith, size) in
      let counted : (field_lengths api form ((name, part) ∷ fields) form.computed_headers 0).1
          ≡ some (length all % 2 ^ 64) =
        ap (λ r. r.1)
          (field_lengths-known form name part (length bytes) fields form.computed_headers 0 known)
        ∙ rw start measured in
      (
        all ++ last,
        collect-append (chain_fields api form (part_stream api form (name, part)) fields)
            (chunk last ∷ []) all last sent (collect_one last),
        ap (λ o. o >>= λ n. some ((n + (2 + length form.boundary + 4)) % 2 ^ 64)) counted
            ∙ ap some (
                wrap (length all) (2 + length form.boundary + 4) (length (all ++ last))
                  (omega (arith, length-append all last, length-last form.boundary))),
      )

  -- If each part's length is known and is the length of what its stream yields, the predicted
  -- length is that of all that the form sends, as a `u64`.
  pub compute_length-into_stream :
      (form : Form)
      → All IsMeasured form.fields
      → (bytes : Text) × (collect (into_stream api form) ≡ some bytes)
        × ((compute_length api form).1 ≡ some (length bytes % 2 ^ 64))
  unfolding into_stream compute_length
  compute_length-into_stream form m = compute_length_of-into_stream_of form form.fields m
