-- ===== src/Uri/Userinfo/Tests.antt =====
-- The user information of a concrete URI, with an encoding of the bytes that matter here.
use tlsurl.Base.{
  ℕ, ◌≡◌, refl, true, none, some, if◌then◌else◌, Text, [], ◌∷◌, nat_beq, arith, codes,
}
use tlsurl.Uri.{Uri, https}
use tlsurl.Uri.Userinfo.{
  rsplit_once, split_once, non_empty, userinfo, UriApi, host_and_port, write_authority,
  set_userinfo, read_authority,
}
use tlsurl.Uri.Userinfo.Roundtrip.{lacks, userinfo-set_userinfo}

abbrev encode_byte : ℕ → Text → Text
encode_byte c s =
    if nat_beq c b':'
    then b'%' ∷ b'3' ∷ b'A' ∷ s
    else if nat_beq c b'@'
    then b'%' ∷ b'4' ∷ b'0' ∷ s
    else if nat_beq c b' '
    then b'%' ∷ b'2' ∷ b'0' ∷ s
    else c ∷ s

abbrev encode_text : Text → Text
encode_text [] = []
encode_text (c ∷ s) = encode_byte c (encode_text s)

encode_byte-lacks : (c : ℕ) (s : Text) → lacks b':' s ≡ true → lacks b':' (encode_byte c s) ≡ true
unfolding lacks
encode_byte-lacks c s h = ground (arith, h)

encode_text-lacks : (t : Text) → lacks b':' (encode_text t) ≡ true
unfolding lacks
encode_text-lacks [] = refl
encode_text-lacks (c ∷ s) = encode_byte-lacks c (encode_text s) (encode_text-lacks s)

encode_text-cons : (c : ℕ) (t : Text) → non_empty (encode_text (c ∷ t)) ≡ some (encode_text (c ∷ t))
encode_text-cons c t = ground arith

abbrev demo : UriApi
demo = record {
  encode = encode_text;
  parse_authority = λ t. some (record { text = t; host = host_and_port t; port = none });
  from_parts = λ uri. some uri;
}

abbrev with_authority : Text → Uri
with_authority text = record {
  scheme = some https;
  authority = some (record { text = text; host = codes "example.com"; port = none });
  path = codes "/";
  query = none;
}

abbrev before : Uri
before = with_authority (codes "user:pass@example.com")

userinfo-before : userinfo before ≡ (some (codes "user"), some (codes "pass"))
unfolding userinfo read_authority rsplit_once split_once
userinfo-before = refl

userinfo-set_userinfo_example :
    userinfo (set_userinfo demo before (codes "us er") (some (codes "p@ss:word!")))
    ≡ (some (codes "us%20er"), some (codes "p%40ss%3Aword!"))
unfolding host_and_port write_authority rsplit_once
userinfo-set_userinfo_example =
    userinfo-set_userinfo demo encode_text-lacks refl encode_text-cons before
      (with_authority (codes "us%20er:p%40ss%3Aword!@example.com"))
      (record { text = codes "user:pass@example.com"; host = codes "example.com"; port = none })
      (record {
        text = codes "us%20er:p%40ss%3Aword!@example.com";
        host = codes "example.com";
        port = none;
      })
      (codes "us er") (some (codes "p@ss:word!")) refl refl refl refl refl
