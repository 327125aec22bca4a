-- ===== src/Proxy/Carried.antt =====
-- src/proxy/matcher.rs: the credentials that stand in the authority of a proxy's URI.
use tlsurl.Base.{
  is_some, not, ◌&&◌, ℕ, ◌≡◌, refl, sym, ap, ◌∙◌, subst, ◌⊎◌, inl, inr, Bool, true, none, some,
  Text, [], ◌∷◌, ◌++◌, Option-cases, Bool-cases, arith, codes, append_assoc, append-nil, nat_beq,
  nat_beq_iff, if◌then◌else◌,
}
use tlsurl.Uri.{Scheme, Authority}
use tlsurl.Uri.Userinfo.{rsplit_once, split_once}
use tlsurl.Uri.Userinfo.Roundtrip.{
  lacks, rsplit_once-lacks, rsplit_once-append, rsplit_once-rest, lacks-none,
}
use tlsurl.Proxy.{ProxyApi, Auth, nothing, basic, raw}
use tlsurl.Proxy.Matching.{split_auth, auth_of, is_socks, with_port}

rsplit_once-whole : (b : ℕ) (s l r : Text) → rsplit_once b s ≡ some (l, r) → s ≡ l ++ b ∷ r
unfolding rsplit_once
rsplit_once-whole b [] l r h = absurd (ground (arith, h))
rsplit_once-whole b (c ∷ s) l r h = elim (Option-cases (rsplit_once b s)) [
  | inl absent ↦ ground (arith, h, absent, nat_beq_iff c b)
  | inr ((l', r'), found) ↦ ground (arith, h, found, rsplit_once-whole b s l' r' found)
]

-- The part before the first separator lacks it.
split_once-whole :
    (b : ℕ) (s l r : Text) → split_once b s ≡ some (l, r) → (s ≡ l ++ b ∷ r) × (lacks b l ≡ true)
unfolding split_once lacks
split_once-whole b [] l r h = absurd (ground (arith, h))
split_once-whole b (c ∷ s) l r h = elim (Bool-cases (nat_beq c b)) [
  | inl hit ↦ (ground (arith, h, hit, nat_beq_iff c b), ground (arith, h, hit))
  | inr miss ↦ elim (Option-cases (split_once b s)) [
    | inl absent ↦ absurd (ground (arith, h, miss, absent))
    | inr ((l', r'), found) ↦
        let (whole, first) = split_once-whole b s l' r' found in
        (ground (arith, h, miss, found, whole), ground (arith, h, miss, found, first))
  ]
]

split_once-none : (b : ℕ) (s : Text) → split_once b s ≡ none → lacks b s ≡ true
unfolding split_once lacks
split_once-none b [] h = refl
split_once-none b (c ∷ s) h = elim (Bool-cases (nat_beq c b)) [
  | inl hit ↦ absurd (ground (arith, h, hit))
  | inr miss ↦ elim (Option-cases (split_once b s)) [
    | inl absent ↦ ground (arith, miss, split_once-none b s absent)
    | inr (pair, found) ↦ absurd (ground (arith, h, miss, found))
  ]
]

lacks-append : (b : ℕ) (s t : Text) → lacks b s ≡ true → lacks b t ≡ true → lacks b (s ++ t) ≡ true
unfolding lacks
lacks-append b [] t h k = k
lacks-append b (c ∷ s) t h k = ground (arith, h, lacks-append b s t, k)

module _ (api : ProxyApi) where
  open api use {percent_decode, encode_block, parse_authority}

  -- A user and a password, for a proxy of a scheme: as they are for SOCKS, and otherwise as the value of
  -- a sensitive header.
  abbrev pub credentials : Scheme → Text → Text → Auth
  credentials scheme user pass =
      if is_socks scheme
      then raw user pass
      else basic (record {
        text = some (codes "Basic " ++ encode_block (user ++ b':' ∷ pass));
        sensitive = true;
      })

  -- What stands before the last `@` of an authority is a user and, after the first `:`, a password; there
  -- are no credentials if there is none.
  abbrev pub Carries : Scheme → Text → Auth → Type 0
  Carries scheme text auth =
      ((lacks b'@' text ≡ true) × (auth ≡ nothing))
      ⊎ ((info : Text) × (host : Text) × (text ≡ info ++ b'@' ∷ host)
          × (lacks b'@' host ≡ true)
          × (((user : Text) × (pass : Text) × (info ≡ user ++ b':' ∷ pass)
                × (lacks b':' user ≡ true)
                × (auth ≡ credentials scheme (percent_decode user) (percent_decode pass)))
              ⊎ ((lacks b':' info ≡ true) × (auth ≡ credentials scheme (percent_decode info) []))))

  auth_of-pair :
      (scheme : Scheme) (socks : Bool) (info user pass : Text)
      → is_socks scheme ≡ socks
      → split_once b':' info ≡ some (user, pass)
      → auth_of api socks info ≡ credentials scheme (percent_decode user) (percent_decode pass)
  auth_of-pair scheme socks info user pass kind found = ground (arith, kind, found)

  auth_of-user :
      (scheme : Scheme) (socks : Bool) (info : Text)
      → is_socks scheme ≡ socks
      → split_once b':' info ≡ none
      → auth_of api socks info ≡ credentials scheme (percent_decode info) []
  auth_of-user scheme socks info kind absent = ground (arith, kind, absent)

  -- What follows the authority, without an `@`, changes nothing.
  split_auth-Carries :
      (scheme : Scheme) (socks : Bool) (text tail : Text)
      → is_socks scheme ≡ socks
      → lacks b'@' tail ≡ true
      → Carries scheme text (split_auth api socks (text ++ tail)).0
  split_auth-Carries scheme socks text tail kind plain =
      elim (Option-cases (rsplit_once b'@' text)) [
        | inl absent ↦
            let free = lacks-none b'@' text absent in
            inl (
              free,
              rw
                  (
                    rsplit_once-lacks b'@' (text ++ tail) (lacks-append b'@' text tail free plain),
                    split_auth,
                  )
                  refl,
            )
        | inr ((info, host), found) ↦
            let whole = rsplit_once-whole b'@' text info host found in
            let clean = rsplit_once-rest b'@' text info host found in
            let parts : rsplit_once b'@' (text ++ tail) ≡ some (info, host ++ tail) =
              ap (λ t. rsplit_once b'@' (t ++ tail)) whole
              ∙ ap (rsplit_once b'@') (append_assoc info (b'@' ∷ host) tail)
              ∙ rsplit_once-append b'@' info (host ++ tail)
                  (lacks-append b'@' host tail clean plain) in
            inr (
              info,
              host,
              whole,
              clean,
              elim (Option-cases (split_once b':' info)) [
                | inr ((user, pass), split) ↦
                    let (joined, first) = split_once-whole b':' info user pass split in
                    inl (
                      user,
                      pass,
                      joined,
                      first,
                      rw (parts, split_auth) (auth_of-pair scheme socks info user pass kind split),
                    )
                | inl alone ↦ inr (
                  split_once-none b':' info alone,
                  rw (parts, split_auth) (auth_of-user scheme socks info kind alone),
                )
              ],
            )
      ]

  -- What `Authority::from_maybe_shared` is documented to do: the authority is the text.
  abbrev pub IsWhole : Type 0
  IsWhole = (text : Text) (a : Authority) → parse_authority text ≡ some a → a.text ≡ text

  with_port-text :
      (socks : Bool) (named a : Authority)
      → IsWhole
      → with_port api socks named ≡ some a
      → (tail : Text) × (lacks b'@' tail ≡ true) × (a.text ≡ named.text ++ tail)
  unfolding lacks
  with_port-text socks named a whole h = elim (Bool-cases (socks && not (is_some named.port))) [
    | inl bare ↦
        (codes ":1080", refl, whole (named.text ++ codes ":1080") a (rw (bare, with_port) at h))
    | inr kept ↦ ([], refl, ground (arith, h, kept, append-nil named.text))
  ]

  -- The credentials that stand in the authority are those of the proxy.
  pub with_port-Carries :
      (scheme : Scheme) (socks : Bool) (named a : Authority)
      → IsWhole
      → is_socks scheme ≡ socks
      → with_port api socks named ≡ some a
      → Carries scheme named.text (split_auth api socks a.text).0
  with_port-Carries scheme socks named a whole kind h =
      let (tail, plain, same) = with_port-text socks named a whole h in
      subst (λ t. Carries scheme named.text (split_auth api socks t).0) (sym same)
        (split_auth-Carries scheme socks named.text tail kind plain)
